-- ===== src/Domain/Id.antt =====
-- `domain.NewID`: eight random bytes in hexadecimal, or the clock where the random source fails.
pub mod Unique
use Prim.Native.Char.{Char}
use review_workflow.Base.{
  ℕ, zero, suc, ◌/◌, ◌%◌, ◌≡◌, refl, String, ◌<>◌, List, [], ◌∷◌, ltb, nat_beq, if◌then◌else◌,
}
use review_workflow.Base.Int.{ℤ, pos, negsuc}

-- What `rand.Read` gives: the bytes of the buffer, or an error, after which the time is read.
pub data RandomRead : Type 0 where
  bytes : List ℕ → RandomRead
  failed : ℤ → RandomRead

hex_digit : ℕ → Char
hex_digit n =
    if nat_beq n 0
    then "0"
    else if nat_beq n 1
    then "1"
    else if nat_beq n 2
    then "2"
    else if nat_beq n 3
    then "3"
    else if nat_beq n 4
    then "4"
    else if nat_beq n 5
    then "5"
    else if nat_beq n 6
    then "6"
    else if nat_beq n 7
    then "7"
    else if nat_beq n 8
    then "8"
    else if nat_beq n 9
    then "9"
    else if nat_beq n 10
    then "a"
    else if nat_beq n 11
    then "b"
    else if nat_beq n 12
    then "c"
    else if nat_beq n 13
    then "d"
    else if nat_beq n 14
    then "e"
    else "f"

-- `hex.EncodeToString`
unfoldable pub hex_encode : List ℕ → String
unfolding hex_digit
hex_encode [] = String.[]
hex_encode (b ∷ bs) =
    String.◌∷◌ (hex_digit (b / 16)) (String.◌∷◌ (hex_digit (b % 16)) (hex_encode bs))

-- `%d`. The fuel is one more than the number, which has fewer digits than that.
decimal_digits : ℕ → ℕ → String → String
unfolding hex_digit
decimal_digits zero n rest = rest
decimal_digits (suc fuel) n rest =
    let out = String.◌∷◌ (hex_digit (n % 10)) rest in
    let more = decimal_digits fuel (n / 10) out in if ltb n 10 then out else more

decimal : ℤ → String
unfolding decimal_digits
decimal (pos n) = decimal_digits (suc n) n ""
decimal (negsuc n) = "-" <> decimal_digits (suc (suc n)) (suc n) ""

unfoldable pub new_id : String → RandomRead → String
unfolding hex_encode decimal
new_id prefix (bytes buf) = (prefix <> "_") <> hex_encode buf
new_id prefix (failed nanos) = (prefix <> "_") <> decimal nanos

new_id_test : new_id "req" (bytes (0 ∷ 255 ∷ 26 ∷ [])) ≡ "req_00ff1a"
unfolding new_id
new_id_test = refl

new_id_fallback_test : new_id "req" (failed (pos 1204)) ≡ "req_1204"
unfolding new_id
new_id_fallback_test = refl
