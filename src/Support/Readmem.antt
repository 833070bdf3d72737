-- ===== src/Support/Readmem.antt =====
-- include/hif2scSupport/hif2scSupport/hif_verilog_standard.i.hpp: `$readmemb` and `$readmemh`.
-- The overloads have one body; what differs between them is a record here. A file is its bytes,
-- and a memory the list of its cells.
pub mod Binary
pub mod Hex
pub mod Reading
pub mod Bounds
pub mod Words
pub mod Loading
use hif_backend.Prelude.{
  ℕ, zero, suc, ◌+◌, ◌-◌, ◌*◌, ◌%◌, ◌^◌, Bool, true, false, ◌&&◌, ◌||◌, not, List, [], ◌∷◌, ◌++◌,
  Option, none, some, Bytes, length, ltb, leb, ◌==◌, if◌then◌else◌, is_empty,
}
use hif_backend.Prelude.Int.{ℤ, pos, negsuc, ◌+ℤ◌, ◌-ℤ◌, ltb_ℤ}

-- The value of a 32-bit `int` that an integer wraps to.
unfoldable pub int32 : ℤ → ℤ
int32 (pos n) = let r = n % 2 ^ 32 in if ltb r (2 ^ 31) then pos r else negsuc (2 ^ 32 - 1 - r)
int32 (negsuc n) = let r = n % 2 ^ 32 in if ltb r (2 ^ 31) then negsuc r else pos (2 ^ 32 - 1 - r)

-- The value of a signed integer of a width from an unsigned one.
unfoldable pub as_signed : ℕ → ℕ → ℤ
as_signed w v = let r = v % 2 ^ w in if ltb r (2 ^ (w - 1)) then pos r else negsuc (2 ^ w - 1 - r)

-- The value of a 64-bit `size_t` that an integer converts to.
unfoldable pub as_size : ℤ → ℕ
as_size (pos n) = n % 2 ^ 64
as_size (negsuc n) = 2 ^ 64 - 1 - n % 2 ^ 64

-- An input stream: what is left to read, and whether it is still good.
pub record Stream : Type 0 where
  pub rest : Bytes
  pub good : Bool

abbrev pub is_space : ℕ → Bool
is_space c = c == b' ' || (leb 9 c && leb c 13)

unfoldable pub drop_spaces : Bytes → Bytes
drop_spaces [] = []
drop_spaces (c ∷ s) = if is_space c then drop_spaces s else c ∷ s

unfoldable pub take_word : Bytes → Bytes
take_word [] = []
take_word (c ∷ s) = if is_space c then [] else c ∷ take_word s

unfoldable pub drop_word : Bytes → Bytes
drop_word [] = []
drop_word (c ∷ s) = if is_space c then c ∷ s else drop_word s

-- `in >> str`: the word read, or the old text if there is none, and the stream behind it, which is
-- no longer good once the end is met.
unfoldable pub extract : Stream → Bytes → Bytes × Stream
extract input str =
    let text = drop_spaces input.rest in
    let left = drop_word text in
    if not input.good
    then (str, input)
    else if is_empty text
    then (str, record { rest = []; good = false })
    else (take_word text, record { rest = left; good = not (is_empty left) })

abbrev hex_digit : ℕ → Option ℕ
hex_digit c =
    if leb b'0' c && leb c b'9'
    then some (c - b'0')
    else if leb b'a' c && leb c b'f'
    then some (c - b'a' + 10)
    else if leb b'A' c && leb c b'F'
    then some (c - b'A' + 10)
    else none

abbrev hex_value : ℕ → Bytes → ℕ
hex_value acc [] = acc
hex_value acc (c ∷ s) = elim (hex_digit c) [ none ↦ acc | some d ↦ hex_value (acc * 16 + d) s ]

abbrev skip_base : Bytes → Bytes
skip_base [] = []
skip_base (c ∷ []) = c ∷ []
skip_base (c ∷ d ∷ s) = if c == b'0' && (d == b'x' || d == b'X') then s else c ∷ d ∷ s

-- `ss >> n` in base 16: an empty text leaves the old value, and a value out of range is cut.
unfoldable pub read_hex : ℤ → Bytes → ℤ
read_hex n [] = n
read_hex n (c ∷ s) =
    if c == b'-'
    then (let v = hex_value 0 (skip_base s) in
        if v == 0 then pos 0 else if ltb v (2 ^ 31) then negsuc (v - 1) else negsuc (2 ^ 31 - 1))
    else let v = hex_value 0 (skip_base (if c == b'+' then s else c ∷ s)) in
      if ltb v (2 ^ 31) then pos v else pos (2 ^ 31 - 1)

-- What an overload does its own way: the value of the stop that its test compares with, whether a
-- word is read after an address, the length that it asserts of a word, and how a word becomes a
-- cell, a prefix put before it.
pub record Overload (A : Type 0) : Type 0 where
  pub adjusted_stop : Bool
  pub rereads : Bool
  pub asserted : Option ℕ
  pub base : Bytes
  pub decode : Bytes → A

pub record Request : Type 0 where
  pub start_addr : ℤ
  pub stop_addr : ℤ
  pub min : ℤ
  pub direction : ℤ

abbrev pub is_negative : ℤ → Bool
is_negative (pos n) = false
is_negative (negsuc n) = true

-- The index of the cell at an address of a memory of `size` cells.
unfoldable pub index_of : ℕ → Request → ℤ → ℤ
index_of size r address =
    let n = int32 (address -ℤ r.min) in if is_negative r.direction then int32 (pos size -ℤ n) else n

-- How a run ends. `out_of_bounds` is a store outside of the memory, and `out_of_fuel` a run that
-- the fuel was too little for.
pub data Result (A : Type 0) : Type 0 where
  finished : List A → Result A
  assertion_failed : Result A
  out_of_bounds : Result A
  out_of_fuel : Result A

pub data Round (A : Type 0) : Type 0 where
  stop : Result A → Round A
  continue : ℤ → Stream → List A → Round A

unfoldable pub store : {A : Type 0} → ℕ → A → List A → Option (List A)
store n a [] = none
store zero a (x ∷ xs) = some (a ∷ xs)
store (suc n) a (x ∷ xs) = elim (store n a xs) [ none ↦ none | some ys ↦ some (x ∷ ys) ]

unfoldable pub store_at : {A : Type 0} → ℤ → A → List A → Option (List A)
store_at (pos n) a xs = store n a xs
store_at (negsuc n) a xs = none

abbrev pub starts_with_at : Bytes → Bool
starts_with_at [] = false
starts_with_at (c ∷ s) = c == b'@'

abbrev pub tail : Bytes → Bytes
tail [] = []
tail (c ∷ s) = s

abbrev pub fails : Option ℕ → Bytes → Bool
fails none str = false
fails (some w) str = not (length str == w)

-- The word behind an address, where the overload reads one.
unfoldable pub reread : Bool → Stream → Bytes → Bytes × Stream
reread true input str = extract input str
reread false input str = (str, input)

module _ {A : Type 0} (o : Overload A) (r : Request) (size : ℕ) where
  unfoldable pub ascending : Bool
  ascending = not (ltb_ℤ (index_of size r r.stop_addr) (index_of size r r.start_addr))

  unfoldable pub limit : ℤ
  limit = if o.adjusted_stop then index_of size r r.stop_addr else r.stop_addr

  unfoldable pub passed : ℤ → Bool
  passed n = (ascending && ltb_ℤ limit n) || (not ascending && ltb_ℤ n limit)

  -- `n > L - 1`, where an `int` meets a `size_t`.
  unfoldable pub beyond : ℤ → Bool
  beyond n = ltb ((size + 2 ^ 64 - 1) % 2 ^ 64) (as_size n)

  -- The end of the body of the loop: the checks and the store.
  unfoldable pub put_word : ℤ → Bytes → Stream → List A → Round A
  put_word n str input memory =
      if fails o.asserted str
      then stop assertion_failed
      else if passed n
      then stop (finished memory)
      else if beyond n
      then stop (finished memory)
      else elim (store_at n (o.decode (o.base ++ str)) memory) [
        | none ↦ stop out_of_bounds
        | some stored ↦ continue (int32 (if ascending then n +ℤ pos 1 else n -ℤ pos 1)) input stored
      ]

  -- The body of the loop.
  unfoldable pub round : ℤ → Stream → List A → Round A
  round n input memory =
      if not input.good
      then stop (finished memory)
      else let (str, behind) = extract input [] in
        if not behind.good
        then stop (finished memory)
        else if starts_with_at str
        then (let (word, after) = reread o.rereads behind str in
            put_word (index_of size r (read_hex n (tail str))) word after memory)
        else put_word n str behind memory

  unfoldable pub rounds : ℕ → ℤ → Stream → List A → Result A
  rounds zero n input memory = out_of_fuel
  rounds (suc fuel) n input memory = elim (round n input memory) [
    | stop result ↦ result
    | continue m behind stored ↦ rounds fuel m behind stored
  ]

-- The whole function on the bytes of the file; a round that goes on has read a byte.
unfoldable pub readmem : {A : Type 0} → Overload A → Request → Bytes → List A → Result A
readmem o r file memory =
    let size = length memory in
    rounds o r size (suc (length file)) (index_of size r r.start_addr)
      (record { rest = file; good = true }) memory
