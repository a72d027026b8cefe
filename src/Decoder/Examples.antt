-- ===== src/Decoder/Examples.antt =====
-- The decoder on a value of SCTLR_EL1.
use kernalite.Base.{◌≡◌, All, u32}
use kernalite.Decoder.Sctlr32.{decode_sctlr_el1_32}
use kernalite.Decoder.Sctlr64.{decode_sctlr_el1_64}
use kernalite.Decoder.Shown.{IsShown, decode-IsShown, assemble}

decode-IsShown_example :
    All (IsShown (u32 0x30d0_0801)) (decode_sctlr_el1_32 0x30d0_0801)
    × All (IsShown 0x30d0_0801) (decode_sctlr_el1_64 0x30d0_0801)
    × (assemble (decode_sctlr_el1_32 0x30d0_0801) ≡ u32 0x30d0_0801)
decode-IsShown_example = decode-IsShown 0x30d0_0801
