-- ===== src/Decoder/Sctlr64.antt =====
-- tools/register_decoder/sctlr_el1_64.h: the members of the union's `bits` in order, and the lines
-- that `decode_sctlr_el1_64` prints.
use kernalite.Base.{ℕ, List, [], ◌∷◌}
use kernalite.Decoder.{Member, member, Row, row, noted, hex_row, Line, decode}

abbrev pub sctlr_el1_64_bits : List Member
sctlr_el1_64_bits =
    member "M" 1
    ∷ member "A" 1
    ∷ member "C" 1
    ∷ member "SA" 1
    ∷ member "SA0" 1
    ∷ member "CP15BEN" 1
    ∷ member "nAA" 1
    ∷ member "ITD" 1
    ∷ member "SED" 1
    ∷ member "UMA" 1
    ∷ member "EnRCTX" 1
    ∷ member "EOS" 1
    ∷ member "I" 1
    ∷ member "EnDB" 1
    ∷ member "DZE" 1
    ∷ member "UCT" 1
    ∷ member "nTWI" 1
    ∷ member "RES0_1" 1
    ∷ member "nTWE" 1
    ∷ member "WXN" 1
    ∷ member "TSCXT" 1
    ∷ member "IESB" 1
    ∷ member "EIS" 1
    ∷ member "SPAN" 1
    ∷ member "E0E" 1
    ∷ member "EE" 1
    ∷ member "UCI" 1
    ∷ member "EnDA" 1
    ∷ member "nTLSMD" 1
    ∷ member "LSMAOE" 1
    ∷ member "EnIB" 1
    ∷ member "EnIA" 1
    ∷ member "RES0_2" 3
    ∷ member "BT0" 1
    ∷ member "BT1" 1
    ∷ member "ITFSB" 1
    ∷ member "TCF0" 2
    ∷ member "TCF" 2
    ∷ member "ATA0" 1
    ∷ member "ATA" 1
    ∷ member "DSSBS" 1
    ∷ member "TWEDEn" 1
    ∷ member "TWEDEL" 4
    ∷ member "RES0_3" 4
    ∷ member "EnASR" 1
    ∷ member "EnAS0" 1
    ∷ member "EnALS" 1
    ∷ member "EPAN" 1
    ∷ member "RES0_4" 28
    ∷ []

abbrev pub sctlr_el1_64_rows : List Row
sctlr_el1_64_rows =
    row "MMU Enable [M]" 0 "M"
    ∷ row "Alignment Check [A]" 1 "A"
    ∷ row "Data Cache [C]" 2 "C"
    ∷ row "Stack Align EL1 [SA]" 3 "SA"
    ∷ row "Stack Align EL0 [SA0]" 4 "SA0"
    ∷ row "CP15 Barrier Enable [CP15BEN]" 5 "CP15BEN"
    ∷ row "Non-aligned Access [nAA]" 6 "nAA"
    ∷ row "IT Disable [ITD]" 7 "ITD"
    ∷ row "SETEND Disable [SED]" 8 "SED"
    ∷ row "User Mask Access [UMA]" 9 "UMA"
    ∷ row "Enforce RCTX [EnRCTX]" 10 "EnRCTX"
    ∷ row "Exception Exit Sync [EOS]" 11 "EOS"
    ∷ row "Instr Cache [I]" 12 "I"
    ∷ row "PAuth EnDB [EnDB]" 13 "EnDB"
    ∷ row "DC ZVA at EL0 [DZE]" 14 "DZE"
    ∷ row "CTR_EL0 Access [UCT]" 15 "UCT"
    ∷ row "Not Trap WFI [nTWI]" 16 "nTWI"
    ∷ row "Not Trap WFE [nTWE]" 18 "nTWE"
    ∷ row "Write XN [WXN]" 19 "WXN"
    ∷ row "Trap SCXTNUM [TSCXT]" 20 "TSCXT"
    ∷ row "Implicit Error Sync [IESB]" 21 "IESB"
    ∷ row "Exception Entry Sync [EIS]" 22 "EIS"
    ∷ row "Set Priv Access Never [SPAN]" 23 "SPAN"
    ∷ noted "EL0 Endianness [E0E]" 24 "E0E" "BE" "LE"
    ∷ noted "EL1 Endianness [EE]" 25 "EE" "BE" "LE"
    ∷ row "Trap EL0 Cache Ops [UCI]" 26 "UCI"
    ∷ row "PAuth EnDA [EnDA]" 27 "EnDA"
    ∷ row "No Trap LDM/STM Device [nTLSMD]" 28 "nTLSMD"
    ∷ row "LDM/STM Atomicity En [LSMAOE]" 29 "LSMAOE"
    ∷ row "PAuth EnIB [EnIB]" 30 "EnIB"
    ∷ row "PAuth EnIA [EnIA]" 31 "EnIA"
    ∷ row "PAC Branch Type EL0 [BT0]" 35 "BT0"
    ∷ row "PAC Branch Type EL1 [BT1]" 36 "BT1"
    ∷ row "Instr Tag Flood Barrier [ITFSB]" 37 "ITFSB"
    ∷ hex_row "Tag Check Fault EL0 [TCF0]" 38 39 "TCF0"
    ∷ hex_row "Tag Check Fault EL1 [TCF]" 40 41 "TCF"
    ∷ row "Alloc Tag Access EL0 [ATA0]" 42 "ATA0"
    ∷ row "Alloc Tag Access EL1 [ATA]" 43 "ATA"
    ∷ row "Spec Store Bypass Safe [DSSBS]" 44 "DSSBS"
    ∷ row "TWE Delay Enable [TWEDEn]" 45 "TWEDEn"
    ∷ hex_row "TWE Delay Value [TWEDEL]" 46 49 "TWEDEL"
    ∷ row "Trap ST64BV EL0 [EnASR]" 54 "EnASR"
    ∷ row "Trap ST64BV0 EL0 [EnAS0]" 55 "EnAS0"
    ∷ row "Trap LD64B/ST64B EL0 [EnALS]" 56 "EnALS"
    ∷ row "Enhanced PAN [EPAN]" 57 "EPAN"
    ∷ []

abbrev pub decode_sctlr_el1_64 : ℕ → List Line
decode_sctlr_el1_64 val = decode sctlr_el1_64_bits sctlr_el1_64_rows val
