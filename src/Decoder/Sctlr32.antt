-- ===== src/Decoder/Sctlr32.antt =====
-- tools/register_decoder/sctlr_el1_32.h: the members of the union's `bits` in order, and the lines
-- that `decode_sctlr_el1_32` prints.
use kernalite.Base.{ℕ, u32, List, [], ◌∷◌}
use kernalite.Decoder.{Member, member, Row, row, noted, Line, decode}

abbrev pub sctlr_el1_32_bits : List Member
sctlr_el1_32_bits =
    member "M" 1
    ∷ member "A" 1
    ∷ member "C" 1
    ∷ member "nTLSMD" 1
    ∷ member "LSMAOE" 1
    ∷ member "CP15BEN" 1
    ∷ member "UNK" 1
    ∷ member "ITD" 1
    ∷ member "SED" 1
    ∷ member "RES0_9" 1
    ∷ member "EnRCTX" 1
    ∷ member "RES1_11" 1
    ∷ member "I" 1
    ∷ member "V" 1
    ∷ member "RES0_14" 1
    ∷ member "RES0_15" 1
    ∷ member "nTWI" 1
    ∷ member "RES0_17" 1
    ∷ member "nTWE" 1
    ∷ member "WXN" 1
    ∷ member "UWXN" 1
    ∷ member "RES0_21" 1
    ∷ member "RES0_22" 1
    ∷ member "SPAN" 1
    ∷ member "RES0_24" 1
    ∷ member "EE" 1
    ∷ member "RES0_26" 1
    ∷ member "RES0_27" 1
    ∷ member "TRE" 1
    ∷ member "AFE" 1
    ∷ member "TE" 1
    ∷ member "DSSBS" 1
    ∷ []

abbrev pub sctlr_el1_32_rows : List Row
sctlr_el1_32_rows =
    row "MMU Enable [M]" 0 "M"
    ∷ row "Alignment Check [A]" 1 "A"
    ∷ row "Data Cache [C]" 2 "C"
    ∷ row "No Trap LDM/STM Device [nTLSMD]" 3 "nTLSMD"
    ∷ row "LDM/STM Atomicity En [LSMAOE]" 4 "LSMAOE"
    ∷ row "CP15 Barrier Enable [CP15BEN]" 5 "CP15BEN"
    ∷ row "Unknown/Ignored [UNK]" 6 "UNK"
    ∷ row "IT Disable [ITD]" 7 "ITD"
    ∷ row "SETEND Disable [SED]" 8 "SED"
    ∷ row "Reserved [RES0_9]" 9 "RES0_9"
    ∷ row "Disable Predictor Flush [EnRCTX]" 10 "EnRCTX"
    ∷ row "Reserved [RES1_11]" 11 "RES1_11"
    ∷ row "Instr Cache [I]" 12 "I"
    ∷ noted "Vectors Bit [V]" 13 "V" "High (0xFFFF0000)" "Low (0x00000000)"
    ∷ row "Reserved [RES0_14]" 14 "RES0_14"
    ∷ row "Reserved [RES0_15]" 15 "RES0_15"
    ∷ row "Not Trap WFI [nTWI]" 16 "nTWI"
    ∷ row "Reserved [RES0_17]" 17 "RES0_17"
    ∷ row "Not Trap WFE [nTWE]" 18 "nTWE"
    ∷ row "Write XN [WXN]" 19 "WXN"
    ∷ row "Unprivileged WXN [UWXN]" 20 "UWXN"
    ∷ row "Reserved [RES0_21]" 21 "RES0_21"
    ∷ row "Reserved [RES1_22]" 22 "RES0_22"
    ∷ row "Set Priv Access Never [SPAN]" 23 "SPAN"
    ∷ row "Reserved [RES0_24]" 24 "RES0_24"
    ∷ noted "EL1 Endianness [EE]" 25 "EE" "Big" "Little"
    ∷ row "Reserved [RES0_26]" 26 "RES0_26"
    ∷ row "Reserved [RES0_27]" 27 "RES0_27"
    ∷ row "TEX Remap Enable [TRE]" 28 "TRE"
    ∷ row "Access Flag Enable [AFE]" 29 "AFE"
    ∷ row "T32 Exception Enable [TE]" 30 "TE"
    ∷ row "Spec Store Bypass Safe [DSSBS]" 31 "DSSBS"
    ∷ []

abbrev pub decode_sctlr_el1_32 : ℕ → List Line
decode_sctlr_el1_32 val = decode sctlr_el1_32_bits sctlr_el1_32_rows (u32 val)
