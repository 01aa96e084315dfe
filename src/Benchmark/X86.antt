-- ===== src/Benchmark/X86.antt =====
-- The cases of `UarchToString` of benchmarks/benchmark_utils.cpp up to AMD, in their order. A
-- constant `cpuinfo_uarch_x` of the library is written "x".
use sigmax.Base.{[], ◌∷◌}
use sigmax.Benchmark.Switch.{Cases}

-- `UarchToString`: the unknown one, and Intel.
abbrev pub intel_cases : Cases
intel_cases =
    ("unknown", "Unknown")
    ∷ ("p5", "Pentium and Pentium MMX")
    ∷ ("quark", "Intel Quark")
    ∷ ("p6", "Pentium Pro, Pentium II, Pentium III")
    ∷ ("dothan", "Pentium M")
    ∷ ("yonah", "Intel Core")
    ∷ ("conroe", "Intel Core 2 (65 nm)")
    ∷ ("penryn", "Intel Core 2 (45 nm)")
    ∷ ("nehalem", "Intel Nehalem/Westmere (Core i3/i5/i7 1st gen)")
    ∷ ("sandy_bridge", "Intel Sandy Bridge (Core i3/i5/i7 2nd gen)")
    ∷ ("ivy_bridge", "Intel Ivy Bridge (Core i3/i5/i7 3rd gen)")
    ∷ ("haswell", "Intel Haswell (Core i3/i5/i7 4th gen)")
    ∷ ("broadwell", "Intel Broadwell")
    ∷ ("sky_lake", "Intel Sky Lake (14 nm)")
    ∷ ("palm_cove", "Intel Palm Cove (Cannon Lake)")
    ∷ ("sunny_cove", "Intel Sunny Cove (Ice Lake)")
    ∷ ("willow_cove", "Intel Willow Cove (Tiger Lake)")
    ∷ ("willamette", "Pentium 4 (Willamette/Northwood/Foster)")
    ∷ ("prescott", "Pentium 4 (Prescott)")
    ∷ ("bonnell", "Intel Atom (45 nm)")
    ∷ ("saltwell", "Intel Atom (32 nm)")
    ∷ ("silvermont", "Intel Silvermont (22 nm)")
    ∷ ("airmont", "Intel Airmont (14 nm)")
    ∷ ("goldmont", "Intel Goldmont")
    ∷ ("goldmont_plus", "Intel Goldmont Plus")
    ∷ ("tremont", "Intel Tremont (10 nm)")
    ∷ ("gracemont", "Intel Gracemont (AlderLake N)")
    ∷ ("crestmont", "Intel Crestmont (Sierra Forest)")
    ∷ ("darkmont", "Intel Darkmont (Clearwater Forest)")
    ∷ ("knights_ferry", "Intel Knights Ferry")
    ∷ ("knights_corner", "Intel Knights Corner (Xeon Phi)")
    ∷ ("knights_landing", "Intel Knights Landing")
    ∷ ("knights_hill", "Intel Knights Hill")
    ∷ ("knights_mill", "Intel Knights Mill")
    ∷ ("xscale", "Intel/Marvell XScale")
    ∷ []

-- AMD
abbrev pub amd_cases : Cases
amd_cases =
    ("k5", "AMD K5")
    ∷ ("k6", "AMD K6")
    ∷ ("k7", "AMD Athlon/Duron (K7)")
    ∷ ("k8", "AMD Athlon 64/Opteron 64 (K8)")
    ∷ ("k10", "AMD Family 10h (K10)")
    ∷ ("bulldozer", "AMD Bulldozer")
    ∷ ("piledriver", "AMD Piledriver")
    ∷ ("steamroller", "AMD Steamroller")
    ∷ ("excavator", "AMD Excavator")
    ∷ ("zen", "AMD Zen")
    ∷ ("zen2", "AMD Zen 2")
    ∷ ("zen3", "AMD Zen 3")
    ∷ ("zen4", "AMD Zen 4")
    ∷ ("zen5", "AMD Zen 5")
    ∷ ("geode", "NSC/AMD Geode")
    ∷ ("bobcat", "AMD Bobcat")
    ∷ ("jaguar", "AMD Jaguar")
    ∷ ("puma", "AMD Puma")
    ∷ []
