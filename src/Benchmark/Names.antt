-- ===== src/Benchmark/Names.antt =====
-- The names of vendors and microarchitectures in benchmarks/benchmark_utils.cpp.
use Prim.Native.String.{String}
use sigmax.Logger.{Level}
use sigmax.Base.{[], ◌∷◌, List, [], ◌++◌, ◌≡◌, refl}
use sigmax.Benchmark.Switch.{Cases, switch, returns, distinct, switch-inj}
use sigmax.Benchmark.X86.{intel_cases, amd_cases}
use sigmax.Benchmark.Arm.{arm_cases, other_cases}

-- The cases of `VendorToString`; a constant `cpuinfo_vendor_x` of the library is written "x".
abbrev pub vendor_cases : Cases
vendor_cases =
    ("intel", "Intel")
    ∷ ("amd", "AMD")
    ∷ ("arm", "ARM")
    ∷ ("qualcomm", "Qualcomm")
    ∷ ("apple", "Apple")
    ∷ ("nvidia", "NVIDIA")
    ∷ ("mips", "MIPS")
    ∷ ("ibm", "IBM")
    ∷ ("broadcom", "Broadcom")
    ∷ ("marvell", "Marvell")
    ∷ []

-- Those of `UarchToString`.
abbrev pub uarch_cases : Cases
uarch_cases = intel_cases ++ (amd_cases ++ (arm_cases ++ other_cases))

-- `VendorToString`
unfoldable pub vendor_to_string : String → List Level × String
unfolding switch
vendor_to_string vendor = switch vendor_cases "Unknown vendor" vendor

-- `UarchToString`
unfoldable pub uarch_to_string : String → List Level × String
unfolding switch
uarch_to_string uarch = switch uarch_cases "Unknown" uarch

-- Two vendors that the switch knows and gives one name are the same.
pub vendor_to_string-inj :
    (v w : String)
    → (vendor_to_string v).0 ≡ []
    → (vendor_to_string w).0 ≡ []
    → (vendor_to_string v).1 ≡ (vendor_to_string w).1
    → v ≡ w
unfolding vendor_to_string distinct returns
vendor_to_string-inj v w = switch-inj vendor_cases "Unknown vendor" v w refl

-- Two microarchitectures that the switch knows and gives one name are the same.
pub uarch_to_string-inj :
    (u w : String)
    → (uarch_to_string u).0 ≡ []
    → (uarch_to_string w).0 ≡ []
    → (uarch_to_string u).1 ≡ (uarch_to_string w).1
    → u ≡ w
unfolding uarch_to_string distinct returns
uarch_to_string-inj u w = switch-inj uarch_cases "Unknown" u w refl
