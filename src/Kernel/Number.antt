-- ===== src/Kernel/Number.antt =====
-- Numbers as text: skip_atoi and number of linux-0.11/kernel/vsprintf.c. Strings are lists of bytes. An
-- int is a word of 32 bits.
pub mod Digits
pub mod Parts
pub mod Text
use linux_0_11_lab.Base.{
  Bool, List, Option, [], if◌then◌else◌, leb, length, ltb, none, not, replicate, some, suc, zero, ℕ,
  ◌%◌, ◌&&◌, ◌*◌, ◌++◌, ◌+◌, ◌-◌, ◌/◌, ◌==◌, ◌^◌, ◌||◌, ◌∷◌,
}
use linux_0_11_lab.Base.Int.{ltb_ℤ, negsuc, pos, pos_part, wrap32, ℤ, ◌-ℤ◌}

-- skip_atoi: the number, and what is behind it.
abbrev pub is_digit : ℕ → Bool
is_digit c = leb 48 c && leb c 57

unfoldable pub skip_atoi_from : ℕ → List ℕ → ℕ × List ℕ
skip_atoi_from i [] = (i, [])
skip_atoi_from i (c ∷ cs) =
    if is_digit c then skip_atoi_from ((i * 10 + c - 48) % 2 ^ 32) cs else (i, c ∷ cs)

abbrev pub skip_atoi : List ℕ → ℕ × List ℕ
skip_atoi cs = skip_atoi_from 0 cs

-- The bits of `flags`, and of `type` in number.
pub record Flags : Type 0 where
  pub zeropad : Bool
  pub sign : Bool
  pub plus : Bool
  pub space : Bool
  pub left : Bool
  pub special : Bool
  pub small : Bool

-- `digits[d]`
abbrev pub digit : Bool → ℕ → ℕ
digit small d = if ltb d 10 then d + 48 else if small then d + 87 else d + 55

-- `while (num!=0) tmp[i++]=digits[do_div(num,base)]`
pub digits_loop : ℕ → Bool → ℕ → ℕ → List ℕ
digits_loop zero small base num = []
digits_loop (suc fuel) small base num =
    let rest = digits_loop fuel small base (num / base) in
    if num == 0 then [] else digit small (num % base) ∷ rest

-- `while(i-->0) *str++ = tmp[i]`
pub backwards : List ℕ → List ℕ
backwards [] = []
backwards (c ∷ cs) = backwards cs ++ (c ∷ [])

abbrev pub is_negative : ℕ → Bool
is_negative num = leb (2 ^ 31) num

abbrev pub to_int : ℕ → ℤ
to_int num = if is_negative num then negsuc (2 ^ 32 - 1 - num) else pos num

abbrev pub sign_of : Flags → ℕ → List ℕ
sign_of type num =
    if type.sign && is_negative num
    then 45 ∷ []
    else if type.plus
    then 43 ∷ []
    else if type.space
    then 32 ∷ []
    else []

abbrev pub prefix_of : Flags → ℕ → List ℕ
prefix_of type base =
    if not type.special
    then []
    else if base == 16
    then 48 ∷ (if type.small then 120 else 88) ∷ []
    else if base == 8
    then 48 ∷ []
    else []

abbrev pub magnitude : Flags → ℕ → ℕ
magnitude type num = if type.sign && is_negative num then (2 ^ 32 - num) % 2 ^ 32 else num

abbrev pub tmp_of : Flags → ℕ → ℕ → List ℕ
tmp_of type num base =
    let n = magnitude type num in if n == 0 then 48 ∷ [] else digits_loop 32 type.small base n

-- `size` and `precision` are `int`s, and what is taken from a size wraps.
abbrev pub less : ℤ → ℕ → ℤ
less size n = wrap32 (size -ℤ pos n)

-- `if (i>precision) precision=i`
abbrev pub at_least : ℕ → ℤ → ℤ
at_least i precision = if ltb_ℤ precision (pos i) then pos i else precision

-- `none` is the null pointer. A loop `while (size-->0)` leaves a size below 0, so that one of the
-- three loops on size does something at most.
pub number : ℕ → ℕ → ℤ → ℤ → Flags → Option (List ℕ)
number num base size precision type =
    let zeropad = type.zeropad && not type.left in
    if ltb base 2 || ltb 36 base
    then none
    else let sign = sign_of type num in
      let prefix = prefix_of type base in
      let tmp = tmp_of type num base in
      let i : ℕ = length tmp in
      let precision' : ℕ = pos_part (at_least i precision) in
      let room : ℕ = pos_part (less (less (less size (length sign)) (length prefix)) precision') in
      some (
        (if zeropad || type.left then [] else replicate room 32)
        ++ (sign
            ++ (prefix
                ++ ((if zeropad then replicate room 48 else [])
                    ++ (replicate (precision' - i) 48
                        ++ (backwards tmp ++ (if type.left then replicate room 32 else [])))))))
