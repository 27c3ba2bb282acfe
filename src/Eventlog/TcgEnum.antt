-- ===== src/Eventlog/TcgEnum.antt =====
-- The numbers of the TCG event log: deps/eventlog/src/ccel/tcg_enum.rs. The discriminants of the
-- enums and the tables of `TryFrom<u32>` are written apart, as in the source.
pub mod Laws
use trustmee_artifact.Prelude.{
  ℕ, ◌≡◌, refl, Bool, Option, none, some, List, [], ◌∷◌, ◌==◌, if◌then◌else◌,
}

-- the first row of a table whose number is the given one
abbrev pub find_row {ℓ} : {A : Type ℓ} → List (ℕ × A) → ℕ → Option A
find_row [] v = none
find_row (row ∷ rows) v = if row.0 == v then some row.1 else find_row rows v

pub data TcgAlgorithm : Type 0 where
  rsa : TcgAlgorithm
  tdes : TcgAlgorithm
  sha1 : TcgAlgorithm
  sha256 : TcgAlgorithm
  sha384 : TcgAlgorithm
  sha512 : TcgAlgorithm
  sm3 : TcgAlgorithm

-- the discriminants
unfoldable pub algorithm_code : TcgAlgorithm → ℕ
algorithm_code rsa = 1
algorithm_code tdes = 3
algorithm_code sha1 = 4
algorithm_code sha256 = 11
algorithm_code sha384 = 12
algorithm_code sha512 = 13
algorithm_code sm3 = 18

abbrev pub algorithm_table : List (ℕ × TcgAlgorithm)
algorithm_table =
    (1, rsa) ∷ (3, tdes) ∷ (4, sha1) ∷ (11, sha256) ∷ (12, sha384) ∷ (13, sha512) ∷ (18, sm3) ∷ []

-- `try_from`
unfoldable pub algorithm_try_from : ℕ → Option TcgAlgorithm
algorithm_try_from v = find_row algorithm_table v

abbrev pub same : TcgAlgorithm → TcgAlgorithm → Bool
same a b = algorithm_code a == algorithm_code b

unfoldable pub get_digest_size : TcgAlgorithm → Option ℕ
get_digest_size sha1 = some 20
get_digest_size sha256 = some 32
get_digest_size sha384 = some 48
get_digest_size sha512 = some 64
get_digest_size sm3 = some 32
get_digest_size rsa = none
get_digest_size tdes = none

pub data TcgEventType : Type 0 where
  ev_preboot_cert : TcgEventType
  ev_post_code : TcgEventType
  ev_unused : TcgEventType
  ev_no_action : TcgEventType
  ev_separator : TcgEventType
  ev_action : TcgEventType
  ev_event_tag : TcgEventType
  ev_s_crtm_contents : TcgEventType
  ev_s_crtm_version : TcgEventType
  ev_cpu_microcode : TcgEventType
  ev_platform_config_flags : TcgEventType
  ev_table_of_devices : TcgEventType
  ev_compact_hash : TcgEventType
  ev_ipl : TcgEventType
  ev_ipl_partition_data : TcgEventType
  ev_nonhost_code : TcgEventType
  ev_nonhost_config : TcgEventType
  ev_nonhost_info : TcgEventType
  ev_omit_boot_device_events : TcgEventType
  ev_efi_event_base : TcgEventType
  ev_efi_variable_driver_config : TcgEventType
  ev_efi_variable_boot : TcgEventType
  ev_efi_boot_services_application : TcgEventType
  ev_efi_boot_services_driver : TcgEventType
  ev_efi_runtime_services_driver : TcgEventType
  ev_efi_gpt_event : TcgEventType
  ev_efi_action : TcgEventType
  ev_efi_platform_firmware_blob : TcgEventType
  ev_efi_handoff_tables : TcgEventType
  ev_efi_platform_firmware_blob2 : TcgEventType
  ev_efi_handoff_tables2 : TcgEventType
  ev_efi_variable_boot2 : TcgEventType
  ev_efi_hcrtm_event : TcgEventType
  ev_efi_variable_authority : TcgEventType
  ev_efi_spdm_firmware_blob : TcgEventType
  ev_efi_spdm_firmware_config : TcgEventType

-- the discriminants
unfoldable pub event_type_code : TcgEventType → ℕ
event_type_code ev_preboot_cert = 0
event_type_code ev_post_code = 1
event_type_code ev_unused = 2
event_type_code ev_no_action = 3
event_type_code ev_separator = 4
event_type_code ev_action = 5
event_type_code ev_event_tag = 6
event_type_code ev_s_crtm_contents = 7
event_type_code ev_s_crtm_version = 8
event_type_code ev_cpu_microcode = 9
event_type_code ev_platform_config_flags = 10
event_type_code ev_table_of_devices = 11
event_type_code ev_compact_hash = 12
event_type_code ev_ipl = 13
event_type_code ev_ipl_partition_data = 14
event_type_code ev_nonhost_code = 15
event_type_code ev_nonhost_config = 16
event_type_code ev_nonhost_info = 17
event_type_code ev_omit_boot_device_events = 18
event_type_code ev_efi_event_base = 2147483648
event_type_code ev_efi_variable_driver_config = 2147483649
event_type_code ev_efi_variable_boot = 2147483650
event_type_code ev_efi_boot_services_application = 2147483651
event_type_code ev_efi_boot_services_driver = 2147483652
event_type_code ev_efi_runtime_services_driver = 2147483653
event_type_code ev_efi_gpt_event = 2147483654
event_type_code ev_efi_action = 2147483655
event_type_code ev_efi_platform_firmware_blob = 2147483656
event_type_code ev_efi_handoff_tables = 2147483657
event_type_code ev_efi_platform_firmware_blob2 = 2147483658
event_type_code ev_efi_handoff_tables2 = 2147483659
event_type_code ev_efi_variable_boot2 = 2147483660
event_type_code ev_efi_hcrtm_event = 2147483664
event_type_code ev_efi_variable_authority = 2147483872
event_type_code ev_efi_spdm_firmware_blob = 2147483873
event_type_code ev_efi_spdm_firmware_config = 2147483874

abbrev pub event_type_table : List (ℕ × TcgEventType)
event_type_table =
    (0, ev_preboot_cert)
    ∷ (1, ev_post_code)
    ∷ (2, ev_unused)
    ∷ (3, ev_no_action)
    ∷ (4, ev_separator)
    ∷ (5, ev_action)
    ∷ (6, ev_event_tag)
    ∷ (7, ev_s_crtm_contents)
    ∷ (8, ev_s_crtm_version)
    ∷ (9, ev_cpu_microcode)
    ∷ (10, ev_platform_config_flags)
    ∷ (11, ev_table_of_devices)
    ∷ (12, ev_compact_hash)
    ∷ (13, ev_ipl)
    ∷ (14, ev_ipl_partition_data)
    ∷ (15, ev_nonhost_code)
    ∷ (16, ev_nonhost_config)
    ∷ (17, ev_nonhost_info)
    ∷ (18, ev_omit_boot_device_events)
    ∷ (2147483648, ev_efi_event_base)
    ∷ (2147483649, ev_efi_variable_driver_config)
    ∷ (2147483650, ev_efi_variable_boot)
    ∷ (2147483651, ev_efi_boot_services_application)
    ∷ (2147483652, ev_efi_boot_services_driver)
    ∷ (2147483653, ev_efi_runtime_services_driver)
    ∷ (2147483654, ev_efi_gpt_event)
    ∷ (2147483655, ev_efi_action)
    ∷ (2147483656, ev_efi_platform_firmware_blob)
    ∷ (2147483657, ev_efi_handoff_tables)
    ∷ (2147483658, ev_efi_platform_firmware_blob2)
    ∷ (2147483659, ev_efi_handoff_tables2)
    ∷ (2147483660, ev_efi_variable_boot2)
    ∷ (2147483664, ev_efi_hcrtm_event)
    ∷ (2147483872, ev_efi_variable_authority)
    ∷ (2147483873, ev_efi_spdm_firmware_blob)
    ∷ (2147483874, ev_efi_spdm_firmware_config)
    ∷ []

-- `try_from`
unfoldable pub event_type_try_from : ℕ → Option TcgEventType
event_type_try_from v = find_row event_type_table v

-- the parsers of ccel/*.rs
pub data EventDataParser : Type 0 where
  ev_simple_parser : EventDataParser
  ev_blank_parser : EventDataParser
  ev_event_tag_parser : EventDataParser
  ev_platform_config_flags_parser : EventDataParser
  ev_ipl_parser : EventDataParser
  ev_efi_variable_parser : EventDataParser
  ev_boot_services_app_parser : EventDataParser
  simple_string_parser : EventDataParser

unfoldable pub get_parser : TcgEventType → EventDataParser
get_parser ev_preboot_cert = ev_blank_parser
get_parser ev_post_code = ev_simple_parser
get_parser ev_unused = ev_blank_parser
get_parser ev_no_action = ev_blank_parser
get_parser ev_separator = ev_blank_parser
get_parser ev_action = ev_simple_parser
get_parser ev_event_tag = ev_event_tag_parser
get_parser ev_s_crtm_contents = ev_blank_parser
get_parser ev_s_crtm_version = ev_blank_parser
get_parser ev_cpu_microcode = ev_blank_parser
get_parser ev_platform_config_flags = ev_platform_config_flags_parser
get_parser ev_table_of_devices = ev_blank_parser
get_parser ev_compact_hash = ev_simple_parser
get_parser ev_ipl = ev_ipl_parser
get_parser ev_ipl_partition_data = ev_blank_parser
get_parser ev_nonhost_code = ev_blank_parser
get_parser ev_nonhost_config = ev_blank_parser
get_parser ev_nonhost_info = ev_blank_parser
get_parser ev_omit_boot_device_events = ev_simple_parser
get_parser ev_efi_event_base = ev_blank_parser
get_parser ev_efi_variable_driver_config = ev_efi_variable_parser
get_parser ev_efi_variable_boot = ev_efi_variable_parser
get_parser ev_efi_boot_services_application = ev_boot_services_app_parser
get_parser ev_efi_boot_services_driver = ev_blank_parser
get_parser ev_efi_runtime_services_driver = ev_blank_parser
get_parser ev_efi_gpt_event = ev_blank_parser
get_parser ev_efi_action = ev_simple_parser
get_parser ev_efi_platform_firmware_blob = ev_blank_parser
get_parser ev_efi_handoff_tables = ev_blank_parser
get_parser ev_efi_platform_firmware_blob2 = simple_string_parser
get_parser ev_efi_handoff_tables2 = simple_string_parser
get_parser ev_efi_variable_boot2 = ev_efi_variable_parser
get_parser ev_efi_hcrtm_event = ev_blank_parser
get_parser ev_efi_variable_authority = ev_efi_variable_parser
get_parser ev_efi_spdm_firmware_blob = ev_blank_parser
get_parser ev_efi_spdm_firmware_config = ev_blank_parser
