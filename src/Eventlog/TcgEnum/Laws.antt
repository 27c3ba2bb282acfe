-- ===== src/Eventlog/TcgEnum/Laws.antt =====
-- The tables of `TryFrom<u32>` agree with the discriminants.
use trustmee_artifact.Prelude.{
  ℕ, ◌≡◌, refl, ◌∙◌, ap, ◌↔◌, inl, inr, some, List, [], ◌∷◌, ◌==◌, All, Bool-cases, ==_iff,
}
use trustmee_artifact.Eventlog.TcgEnum.{
  TcgAlgorithm, TcgEventType, find_row, algorithm_code, algorithm_table, algorithm_try_from,
  event_type_code, event_type_table, event_type_try_from, rsa, tdes, sha1, sha256, sha384, sha512,
  sm3, ev_preboot_cert, ev_post_code, ev_unused, ev_no_action, ev_separator, ev_action,
  ev_event_tag, ev_s_crtm_contents, ev_s_crtm_version, ev_cpu_microcode, ev_platform_config_flags,
  ev_table_of_devices, ev_compact_hash, ev_ipl, ev_ipl_partition_data, ev_nonhost_code,
  ev_nonhost_config, ev_nonhost_info, ev_omit_boot_device_events, ev_efi_event_base,
  ev_efi_variable_driver_config, ev_efi_variable_boot, ev_efi_boot_services_application,
  ev_efi_boot_services_driver, ev_efi_runtime_services_driver, ev_efi_gpt_event, ev_efi_action,
  ev_efi_platform_firmware_blob, ev_efi_handoff_tables, ev_efi_platform_firmware_blob2,
  ev_efi_handoff_tables2, ev_efi_variable_boot2, ev_efi_hcrtm_event, ev_efi_variable_authority,
  ev_efi_spdm_firmware_blob, ev_efi_spdm_firmware_config,
}

-- a row that is found stands in the table
find_row_sound {ℓ} :
    {A : Type ℓ} (code : A → ℕ) (rows : List (ℕ × A))
    → All (λ row. row.0 ≡ code row.1) rows
    → (v : ℕ) {a : A} → find_row rows v ≡ some a
    → v ≡ code a
find_row_sound code [] good v h = cc
find_row_sound code (row ∷ rows) good v h = elim (Bool-cases (row.0 == v)) [
  | inl hit ↦ cc ((==_iff row.0 v).0 hit, good.0)
  | inr miss ↦ find_row_sound code rows good.1 v cc
]

algorithm_rows : All (λ row. row.0 ≡ algorithm_code row.1) algorithm_table
unfolding algorithm_code
algorithm_rows = (refl, (refl, (refl, (refl, (refl, (refl, (refl, tt)))))))

algorithm_back : (t : TcgAlgorithm) → algorithm_try_from (algorithm_code t) ≡ some t
unfolding algorithm_code algorithm_try_from
algorithm_back rsa = refl
algorithm_back tdes = refl
algorithm_back sha1 = refl
algorithm_back sha256 = refl
algorithm_back sha384 = refl
algorithm_back sha512 = refl
algorithm_back sm3 = refl

-- A number is read as a hash algorithm exactly when it is the discriminant of that algorithm.
pub algorithm_try_from_iff :
    (v : ℕ) (t : TcgAlgorithm) → (algorithm_try_from v ≡ some t) ↔ (v ≡ algorithm_code t)
unfolding algorithm_try_from
algorithm_try_from_iff v t = (
  (λ h. find_row_sound algorithm_code algorithm_table algorithm_rows v h),
  λ e. ap algorithm_try_from e ∙ algorithm_back t,
)

event_type_rows : All (λ row. row.0 ≡ event_type_code row.1) event_type_table
unfolding event_type_code
event_type_rows = (
  refl,
  (
    refl,
    (
      refl,
      (
        refl,
        (
          refl,
          (
            refl,
            (
              refl,
              (
                refl,
                (
                  refl,
                  (
                    refl,
                    (
                      refl,
                      (
                        refl,
                        (
                          refl,
                          (
                            refl,
                            (
                              refl,
                              (
                                refl,
                                (
                                  refl,
                                  (
                                    refl,
                                    (
                                      refl,
                                      (
                                        refl,
                                        (
                                          refl,
                                          (
                                            refl,
                                            (
                                              refl,
                                              (
                                                refl,
                                                (
                                                  refl,
                                                  (
                                                    refl,
                                                    (
                                                      refl,
                                                      (
                                                        refl,
                                                        (
                                                          refl,
                                                          (
                                                            refl,
                                                            (
                                                            refl,
                                                            (
                                                            refl,
                                                            (refl, (refl, (refl, (refl, tt)))),
                                                            ),
                                                            ),
                                                          ),
                                                        ),
                                                      ),
                                                    ),
                                                  ),
                                                ),
                                              ),
                                            ),
                                          ),
                                        ),
                                      ),
                                    ),
                                  ),
                                ),
                              ),
                            ),
                          ),
                        ),
                      ),
                    ),
                  ),
                ),
              ),
            ),
          ),
        ),
      ),
    ),
  ),
)

event_type_back : (t : TcgEventType) → event_type_try_from (event_type_code t) ≡ some t
unfolding event_type_code event_type_try_from
event_type_back ev_preboot_cert = refl
event_type_back ev_post_code = refl
event_type_back ev_unused = refl
event_type_back ev_no_action = refl
event_type_back ev_separator = refl
event_type_back ev_action = refl
event_type_back ev_event_tag = refl
event_type_back ev_s_crtm_contents = refl
event_type_back ev_s_crtm_version = refl
event_type_back ev_cpu_microcode = refl
event_type_back ev_platform_config_flags = refl
event_type_back ev_table_of_devices = refl
event_type_back ev_compact_hash = refl
event_type_back ev_ipl = refl
event_type_back ev_ipl_partition_data = refl
event_type_back ev_nonhost_code = refl
event_type_back ev_nonhost_config = refl
event_type_back ev_nonhost_info = refl
event_type_back ev_omit_boot_device_events = refl
event_type_back ev_efi_event_base = refl
event_type_back ev_efi_variable_driver_config = refl
event_type_back ev_efi_variable_boot = refl
event_type_back ev_efi_boot_services_application = refl
event_type_back ev_efi_boot_services_driver = refl
event_type_back ev_efi_runtime_services_driver = refl
event_type_back ev_efi_gpt_event = refl
event_type_back ev_efi_action = refl
event_type_back ev_efi_platform_firmware_blob = refl
event_type_back ev_efi_handoff_tables = refl
event_type_back ev_efi_platform_firmware_blob2 = refl
event_type_back ev_efi_handoff_tables2 = refl
event_type_back ev_efi_variable_boot2 = refl
event_type_back ev_efi_hcrtm_event = refl
event_type_back ev_efi_variable_authority = refl
event_type_back ev_efi_spdm_firmware_blob = refl
event_type_back ev_efi_spdm_firmware_config = refl

-- A number is read as an event type exactly when it is the discriminant of that type.
pub event_type_try_from_iff :
    (v : ℕ) (t : TcgEventType) → (event_type_try_from v ≡ some t) ↔ (v ≡ event_type_code t)
unfolding event_type_try_from
event_type_try_from_iff v t = (
  (λ h. find_row_sound event_type_code event_type_table event_type_rows v h),
  λ e. ap event_type_try_from e ∙ event_type_back t,
)
