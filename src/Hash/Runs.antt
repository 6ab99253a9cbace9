-- ===== src/Hash/Runs.antt =====
-- The published value of SHA-256 on "abc", and the theorems about the code on concrete inputs.
use randioum.Base.{◌≡◌, refl, ◌++◌, replicate}
use randioum.Base.Text.{codes, to_hex, hex_digit}
use randioum.Hash.Words.{compress}
use randioum.Hash.Sha256.{
  sha256, sha256_2x32, update, finalize, fill_buffer, absorb_blocks, absorb_rest, padding, be_bytes,
}
use randioum.Hash.Sha256.Reference.{reference, sha256-reference, sha256_2x32-sha256}

sha256-abc :
    to_hex (sha256 (codes "abc"))
    ≡ codes "ba7816bf8f01cfea414140de5dae2223b00361a396177a9cb410ff61f20015ad"
unfolding sha256 update finalize fill_buffer absorb_blocks absorb_rest padding be_bytes compress
    to_hex hex_digit
sha256-abc = refl

-- 120 bytes: a block and a rest behind which the length does not fit.
sha256-reference_example : sha256 (replicate 120 7) ≡ reference (replicate 120 7)
sha256-reference_example = sha256-reference (replicate 120 7)

sha256_2x32-sha256_example :
    sha256_2x32 (replicate 32 1) (replicate 32 2) ≡ sha256 (replicate 32 1 ++ replicate 32 2)
sha256_2x32-sha256_example = sha256_2x32-sha256 (replicate 32 1) (replicate 32 2)
