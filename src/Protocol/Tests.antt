-- ===== src/Protocol/Tests.antt =====
-- Runs of ByteToBase10.
use nsq.Base.{ℕ, ◌%◌, ◌≡◌, ◌⊎◌, refl, true, false, List, [], ◌∷◌, u64_mod}
use nsq.Protocol.{base10_loop, byte_to_base10, AllDigits, decimal, byte_to_base10_correct}

-- "123"
abbrev text : List ℕ
text = 49 ∷ 50 ∷ 51 ∷ []

text_value : byte_to_base10 text ≡ (123, false)
unfolding byte_to_base10 base10_loop
text_value = refl

byte_to_base10_correct_example :
    (AllDigits text × (byte_to_base10 text ≡ (decimal text 0 % u64_mod, false)))
    ⊎ (¬ AllDigits text × (byte_to_base10 text ≡ (0, true)))
byte_to_base10_correct_example = byte_to_base10_correct text
