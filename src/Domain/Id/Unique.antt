-- ===== src/Domain/Id/Unique.antt =====
-- Reading the random bytes back from an identifier of `domain.NewID`.
use Prim.Native.Char.{code}
use mathlib.Core.Path.{ap₂}
use text.Mathlib.TextLemmas.{append_cancel_left}
use review_workflow.Base.{
  ℕ, zero, suc, ◌+◌, ◌-◌, ◌*◌, ◌/◌, ◌%◌, ◌<◌, ◌≡◌, refl, sym, ap, ◌∙◌, String, ◌<>◌, List, [], ◌∷◌,
  arith, ltb, if◌then◌else◌, All,
}
use review_workflow.Domain.Id.{bytes, hex_digit, hex_encode, new_id}

-- The value of a hexadecimal digit, and the bytes of a text of such digits.
digit_value : ℕ → ℕ
digit_value c = if ltb c 58 then c - 48 else c - 87

hex_decode : String → List ℕ
hex_decode String.[] = []
hex_decode (String.◌∷◌ c String.[]) = []
hex_decode (String.◌∷◌ c (String.◌∷◌ d s)) =
    (digit_value (code c) * 16 + digit_value (code d)) ∷ hex_decode s

digit_value-hex_digit : (n : ℕ) → n < 16 → digit_value (code (hex_digit n)) ≡ n
unfolding digit_value hex_digit
digit_value-hex_digit zero h = refl
digit_value-hex_digit (suc zero) h = refl
digit_value-hex_digit (suc (suc zero)) h = refl
digit_value-hex_digit (suc (suc (suc zero))) h = refl
digit_value-hex_digit (suc (suc (suc (suc zero)))) h = refl
digit_value-hex_digit (suc (suc (suc (suc (suc zero))))) h = refl
digit_value-hex_digit (suc (suc (suc (suc (suc (suc zero)))))) h = refl
digit_value-hex_digit (suc (suc (suc (suc (suc (suc (suc zero))))))) h = refl
digit_value-hex_digit (suc (suc (suc (suc (suc (suc (suc (suc zero)))))))) h = refl
digit_value-hex_digit (suc (suc (suc (suc (suc (suc (suc (suc (suc zero))))))))) h = refl
digit_value-hex_digit (suc (suc (suc (suc (suc (suc (suc (suc (suc (suc zero)))))))))) h = refl
digit_value-hex_digit (suc (suc (suc (suc (suc (suc (suc (suc (suc (suc (suc zero))))))))))) h =
    refl
digit_value-hex_digit (suc (suc (suc (suc (suc (suc (suc (suc (suc (suc (suc (suc zero))))))))))))
      h =
    refl
digit_value-hex_digit
      (suc (suc (suc (suc (suc (suc (suc (suc (suc (suc (suc (suc (suc zero))))))))))))) h =
    refl
digit_value-hex_digit
      (suc (suc (suc (suc (suc (suc (suc (suc (suc (suc (suc (suc (suc (suc zero)))))))))))))) h =
    refl
digit_value-hex_digit
      (suc (suc (suc (suc (suc (suc (suc (suc (suc (suc (suc (suc (suc (suc (suc zero)))))))))))))))
      h =
    refl
digit_value-hex_digit
      (suc
        (suc (suc (suc (suc (suc (suc (suc (suc (suc (suc (suc (suc (suc (suc (suc n))))))))))))))))
      h =
    absurd (omega arith)

hex_decode-hex_encode : (bs : List ℕ) → All (λ b. b < 256) bs → hex_decode (hex_encode bs) ≡ bs
unfolding hex_decode hex_encode
hex_decode-hex_encode [] h = refl
hex_decode-hex_encode (b ∷ bs) h =
    let high = digit_value-hex_digit (b / 16) (omega arith) in
    let low = digit_value-hex_digit (b % 16) (omega arith) in
    let value : digit_value (code (hex_digit (b / 16))) * 16
          + digit_value (code (hex_digit (b % 16)))
        ≡ b =
      omega arith in
    ap₂ ◌∷◌ value (hex_decode-hex_encode bs h.1)

-- Two identifiers with one prefix, of buffers of bytes, are equal only if the buffers are.
pub new_id-injective :
    (prefix : String) (bs cs : List ℕ)
    → All (λ b. b < 256) bs
    → All (λ b. b < 256) cs
    → new_id prefix (bytes bs) ≡ new_id prefix (bytes cs)
    → bs ≡ cs
unfolding new_id
new_id-injective prefix bs cs hb hc e =
    sym (hex_decode-hex_encode bs hb)
    ∙ ap hex_decode (append_cancel_left (prefix <> "_") (hex_encode bs) (hex_encode cs) e)
    ∙ hex_decode-hex_encode cs hc
