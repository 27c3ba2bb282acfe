-- ===== src/Verifier.antt =====
-- The verifiers of evidence: deps/verifier/src/lib.rs, what all of them share.
pub mod Regularize
pub mod Tdx
pub mod Nvidia
pub mod Tests
use trustmee_artifact.Prelude.{Bytes, ℕ, ◌-◌, ◌++◌, ltb, if◌then◌else◌, length, take, replicate}

pub data ReportData : Type 0 where
  value : Bytes → ReportData
  not_provided : ReportData

pub data InitDataHash : Type 0 where
  value : Bytes → InitDataHash
  not_provided : InitDataHash

-- padding with zeros, or cutting to `len` bytes
unfoldable pub regularize_data : Bytes → ℕ → Bytes
regularize_data bytes len =
    if ltb (length bytes) len
    then bytes ++ replicate (len - length bytes) 0
    else (if ltb len (length bytes) then take len bytes else bytes)
