-- ===== src/Verifier/Nvidia/DataType.antt =====
-- The types of opaque data: `OpaqueDataType` of deps/verifier/src/nvidia/spdm_response.rs.
use trustmee_artifact.Prelude.{ℕ, String, ◌≡◌, ◌≢◌, refl, Option, none, some, ◌==◌, if◌then◌else◌}

pub data OpaqueDataType : Type 0 where
  cert_issuer_name cert_authority_key_identifier driver_version gpu_info id_sku : OpaqueDataType
  vbios_version manufacturer_id tamper_detection smc vpr : OpaqueDataType
  nvdec0_status msrs_cnt cpr_info board_id chip_sku : OpaqueDataType
  chip_sku_mod project project_sku project_sku_mod fwid : OpaqueDataType
  protected_pcie_status switch_pdi floorswept_ports position_id lock_switch_status : OpaqueDataType
  gpu_link_conn invalid : OpaqueDataType

-- the value of a type in `repr(u16)`
unfoldable pub code : OpaqueDataType → ℕ
code cert_issuer_name = 1
code cert_authority_key_identifier = 2
code driver_version = 3
code gpu_info = 4
code id_sku = 5
code vbios_version = 6
code manufacturer_id = 7
code tamper_detection = 8
code smc = 9
code vpr = 10
code nvdec0_status = 11
code msrs_cnt = 12
code cpr_info = 13
code board_id = 14
code chip_sku = 15
code chip_sku_mod = 16
code project = 17
code project_sku = 18
code project_sku_mod = 19
code fwid = 20
code protected_pcie_status = 21
code switch_pdi = 22
code floorswept_ports = 23
code position_id = 24
code lock_switch_status = 25
code gpu_link_conn = 32
code invalid = 255

-- `from_u16`, which has no number for `invalid`
unfoldable pub from_u16 : ℕ → Option OpaqueDataType
from_u16 value =
    if value == 1
    then some cert_issuer_name
    else (if value == 2
        then some cert_authority_key_identifier
        else (if value == 3
            then some driver_version
            else (if value == 4
                then some gpu_info
                else (if value == 5
                    then some id_sku
                    else (if value == 6
                        then some vbios_version
                        else (if value == 7
                            then some manufacturer_id
                            else (if value == 8
                                then some tamper_detection
                                else (if value == 9
                                    then some smc
                                    else (if value == 10
                                        then some vpr
                                        else (if value == 11
                                            then some nvdec0_status
                                            else (if value == 12
                                                then some msrs_cnt
                                                else (if value == 13
                                                    then some cpr_info
                                                    else (if value == 14
                                                        then some board_id
                                                        else (if value == 15
                                                            then some chip_sku
                                                            else (if value == 16
                                                            then some chip_sku_mod
                                                            else (if value == 17
                                                            then some project
                                                            else (if value == 18
                                                            then some project_sku
                                                            else (if value == 19
                                                            then some project_sku_mod
                                                            else (if value == 20
                                                            then some fwid
                                                            else (if value == 21
                                                            then some protected_pcie_status
                                                            else (if value == 22
                                                            then some switch_pdi
                                                            else (if value == 23
                                                            then some floorswept_ports
                                                            else (if value == 24
                                                            then some position_id
                                                            else (if value == 25
                                                            then some lock_switch_status
                                                            else (if value == 32
                                                            then some gpu_link_conn
                                                            else (none))))))))))))))))))))))))))

-- `Display`
unfoldable pub name : OpaqueDataType → String
name cert_issuer_name = "cert_issuer_name"
name cert_authority_key_identifier = "cert_authority_key_identifier"
name driver_version = "driver_version"
name gpu_info = "gpu_info"
name id_sku = "id_sku"
name vbios_version = "vbios_version"
name manufacturer_id = "manufacturer_id"
name tamper_detection = "tamper_detection"
name smc = "smc"
name vpr = "vpr"
name nvdec0_status = "nvdec0_status"
name msrs_cnt = "measurement_count"
name cpr_info = "cpr_info"
name board_id = "board_id"
name chip_sku = "chip_sku"
name chip_sku_mod = "chip_sku_mod"
name project = "project"
name project_sku = "project_sku"
name project_sku_mod = "project_sku_mod"
name fwid = "fwid"
name protected_pcie_status = "protected_pcie_status"
name switch_pdi = "switch_pdi"
name floorswept_ports = "floorswept_ports"
name position_id = "position_id"
name lock_switch_status = "lock_switch_status"
name gpu_link_conn = "gpu_link_conn"
name invalid = "invalid"

-- Every type but `invalid` is read back from its number.
pub from_u16-code : (type : OpaqueDataType) → type ≢ invalid → from_u16 (code type) ≡ some type
unfolding from_u16 code
from_u16-code cert_issuer_name h = refl
from_u16-code cert_authority_key_identifier h = refl
from_u16-code driver_version h = refl
from_u16-code gpu_info h = refl
from_u16-code id_sku h = refl
from_u16-code vbios_version h = refl
from_u16-code manufacturer_id h = refl
from_u16-code tamper_detection h = refl
from_u16-code smc h = refl
from_u16-code vpr h = refl
from_u16-code nvdec0_status h = refl
from_u16-code msrs_cnt h = refl
from_u16-code cpr_info h = refl
from_u16-code board_id h = refl
from_u16-code chip_sku h = refl
from_u16-code chip_sku_mod h = refl
from_u16-code project h = refl
from_u16-code project_sku h = refl
from_u16-code project_sku_mod h = refl
from_u16-code fwid h = refl
from_u16-code protected_pcie_status h = refl
from_u16-code switch_pdi h = refl
from_u16-code floorswept_ports h = refl
from_u16-code position_id h = refl
from_u16-code lock_switch_status h = refl
from_u16-code gpu_link_conn h = refl
from_u16-code invalid h = absurd (h refl)
