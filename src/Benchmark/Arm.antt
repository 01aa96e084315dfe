-- ===== src/Benchmark/Arm.antt =====
-- The cases of `UarchToString` of benchmarks/benchmark_utils.cpp from ARM on, in their order. A
-- constant `cpuinfo_uarch_x` of the library is written "x".
use sigmax.Base.{[], ◌∷◌}
use sigmax.Benchmark.Switch.{Cases}

-- ARM
abbrev pub arm_cases : Cases
arm_cases =
    ("arm7", "ARM7")
    ∷ ("arm9", "ARM9")
    ∷ ("arm11", "ARM11")
    ∷ ("cortex_a5", "ARM Cortex-A5")
    ∷ ("cortex_a7", "ARM Cortex-A7")
    ∷ ("cortex_a8", "ARM Cortex-A8")
    ∷ ("cortex_a9", "ARM Cortex-A9")
    ∷ ("cortex_a12", "ARM Cortex-A12")
    ∷ ("cortex_a15", "ARM Cortex-A15")
    ∷ ("cortex_a17", "ARM Cortex-A17")
    ∷ ("cortex_a32", "ARM Cortex-A32")
    ∷ ("cortex_a35", "ARM Cortex-A35")
    ∷ ("cortex_a53", "ARM Cortex-A53")
    ∷ ("cortex_a55r0", "ARM Cortex-A55 (r0)")
    ∷ ("cortex_a55", "ARM Cortex-A55")
    ∷ ("cortex_a57", "ARM Cortex-A57")
    ∷ ("cortex_a65", "ARM Cortex-A65")
    ∷ ("cortex_a72", "ARM Cortex-A72")
    ∷ ("cortex_a73", "ARM Cortex-A73")
    ∷ ("cortex_a75", "ARM Cortex-A75")
    ∷ ("cortex_a76", "ARM Cortex-A76")
    ∷ ("cortex_a77", "ARM Cortex-A77")
    ∷ ("cortex_a78", "ARM Cortex-A78")
    ∷ ("neoverse_n1", "ARM Neoverse N1")
    ∷ ("neoverse_e1", "ARM Neoverse E1")
    ∷ ("neoverse_v1", "ARM Neoverse V1")
    ∷ ("neoverse_n2", "ARM Neoverse N2")
    ∷ ("neoverse_v2", "ARM Neoverse V2")
    ∷ ("cortex_x1", "ARM Cortex-X1")
    ∷ ("cortex_x2", "ARM Cortex-X2")
    ∷ ("cortex_x3", "ARM Cortex-X3")
    ∷ ("cortex_x4", "ARM Cortex-X4")
    ∷ ("cortex_x925", "ARM Cortex-X925")
    ∷ ("cortex_a510", "ARM Cortex-A510")
    ∷ ("cortex_a520", "ARM Cortex-A520")
    ∷ ("cortex_a710", "ARM Cortex-A710")
    ∷ ("cortex_a715", "ARM Cortex-A715")
    ∷ ("cortex_a720", "ARM Cortex-A720")
    ∷ ("cortex_a725", "ARM Cortex-A725")
    ∷ []

-- The other makers.
abbrev pub other_cases : Cases
other_cases =
    ("scorpion", "Qualcomm Scorpion")
    ∷ ("krait", "Qualcomm Krait")
    ∷ ("kryo", "Qualcomm Kryo")
    ∷ ("falkor", "Qualcomm Falkor")
    ∷ ("saphira", "Qualcomm Saphira")
    ∷ ("oryon", "Qualcomm Oryon")
    ∷ ("oryon_v3", "Qualcomm Oryon V3")
    ∷ ("denver", "NVIDIA Denver")
    ∷ ("denver2", "NVIDIA Denver 2")
    ∷ ("carmel", "NVIDIA Carmel")
    ∷ ("exynos_m1", "Samsung Exynos M1")
    ∷ ("exynos_m2", "Samsung Exynos M2")
    ∷ ("exynos_m3", "Samsung Exynos M3")
    ∷ ("exynos_m4", "Samsung Exynos M4")
    ∷ ("exynos_m5", "Samsung Exynos M5")
    ∷ ("swift", "Apple Swift (A6/A6X)")
    ∷ ("cyclone", "Apple Cyclone (A7)")
    ∷ ("typhoon", "Apple Typhoon (A8/A8X)")
    ∷ ("twister", "Apple Twister (A9/A9X)")
    ∷ ("hurricane", "Apple Hurricane (A10/A10X)")
    ∷ ("monsoon", "Apple Monsoon (A11 big)")
    ∷ ("mistral", "Apple Mistral (A11 little)")
    ∷ ("vortex", "Apple Vortex (A12 big)")
    ∷ ("tempest", "Apple Tempest (A12 little)")
    ∷ ("lightning", "Apple Lightning (A13 big)")
    ∷ ("thunder", "Apple Thunder (A13 little)")
    ∷ ("firestorm", "Apple Firestorm (A14/M1 big)")
    ∷ ("icestorm", "Apple Icestorm (A14/M1 little)")
    ∷ ("avalanche", "Apple Avalanche (A15/M2 big)")
    ∷ ("blizzard", "Apple Blizzard (A15/M2 little)")
    ∷ ("everest", "Apple Everest (A16 big)")
    ∷ ("sawtooth", "Apple Sawtooth (A16 little)")
    ∷ ("coll_everest", "Apple Coll Everest (A17 big)")
    ∷ ("coll_sawtooth", "Apple Coll Sawtooth (A17 little)")
    ∷ ("tupai_everest", "Apple Tupai Everest (A18 big)")
    ∷ ("tupai_sawtooth", "Apple Tupai Sawtooth (A18 little)")
    ∷ ("tahiti_everest", "Apple Tahiti Everest (A18 Pro big)")
    ∷ ("tahiti_sawtooth", "Apple Tahiti Sawtooth (A18 Pro little)")
    ∷ ("tilos_everest", "Apple Tilos Everest (A19 big)")
    ∷ ("tilos_sawtooth", "Apple Tilos Sawtooth (A19 little)")
    ∷ ("donan_everest", "Apple Donan Everest (M4 big)")
    ∷ ("donan_sawtooth", "Apple Donan Sawtooth (M4 little)")
    ∷ ("thunderx", "Cavium ThunderX")
    ∷ ("thunderx2", "Cavium ThunderX2")
    ∷ ("pj4", "Marvell PJ4")
    ∷ ("brahma_b15", "Broadcom Brahma B15")
    ∷ ("brahma_b53", "Broadcom Brahma B53")
    ∷ ("xgene", "Applied Micro X-Gene")
    ∷ ("dhyana", "Hygon Dhyana")
    ∷ ("taishan_v110", "HiSilicon TaiShan v110")
    ∷ []
