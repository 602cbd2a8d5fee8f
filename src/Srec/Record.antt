-- ===== src/Srec/Record.antt =====
-- The lines of an S-record file.
use mathlib.Core.List.{append_assoc, append-nil}
use vasm_ext.Common.Word.{add64}
use vasm_ext.Common.{
  ℕ, zero, suc, ◌+◌, ◌-◌, ◌/◌, ◌%◌, ◌^◌, ◌≤◌, ◌<◌, ◌≡◌, refl, ap, ◌∙◌, arith, Bool, true, false,
  List, [], ◌∷◌, ◌++◌, length, ltb, ◌==◌, if◌then◌else◌, inl, inr, Bool-cases,
}
use vasm_ext.Srec.{Srec, put, tohex, write_hex_byte, write_newline, write_data, write_data_buffer}

-- Octets as pairs of hexadecimal digits.
abbrev pub hex : List ℕ → List ℕ
hex [] = []
hex (b ∷ bs) = tohex (b / 16) ∷ tohex b ∷ hex bs

abbrev pub sum : List ℕ → ℕ
sum [] = 0
sum (b ∷ bs) = b + sum bs

abbrev pub newline : Bool → List ℕ
newline asciiout = if asciiout then 10 ∷ [] else 13 ∷ 10 ∷ []

-- The `k` lower octets of an address, the highest first.
abbrev pub address : ℕ → ℕ → List ℕ
address zero a = []
address (suc zero) a = a % 256 ∷ []
address (suc (suc k)) a = (a / 256 ^ suc k % 256) ∷ address (suc k) a

-- What the count counts: an address, data, and the complement of the sum.
abbrev pub counted : List ℕ → List ℕ
counted body = (length body + 1) ∷ body

abbrev pub srecord : ℕ → ℕ → List ℕ → List ℕ
srecord type a data_octets =
    let l = counted (address (type + 1) a ++ data_octets) in l ++ (255 - sum l % 256) ∷ []

abbrev pub line : Bool → ℕ → ℕ → List ℕ → List ℕ
line asciiout type a data_octets =
    83 ∷ (type + 48) ∷ (hex (srecord type a data_octets) ++ newline asciiout)

tohex-octet : (v : ℕ) → tohex v % 2 ^ 8 ≡ tohex v
unfolding tohex
tohex-octet v = ground arith

emit : Srec → List ℕ → Srec
emit s xs = record s { file = s.file ++ xs }

emit-emit : (s : Srec) (xs ys : List ℕ) → emit (emit s xs) ys ≡ emit s (xs ++ ys)
unfolding emit
emit-emit s xs ys = ap (λ f. record s { file = f }) (append_assoc s.file xs ys)

put-emit : (s : Srec) (x : ℕ) → put s x ≡ emit s (x % 2 ^ 8 ∷ [])
unfolding emit put
put-emit s x = refl

hex-emit : (s : Srec) (b : ℕ) → write_hex_byte s b ≡ emit s (hex (b ∷ []))
unfolding write_hex_byte emit put
hex-emit s b =
    rw (tohex-octet, tohex-octet)
      (ap (λ f. record s { file = f }) (append_assoc s.file (tohex (b / 16) ∷ []) (tohex b ∷ [])))

newline-emit :
    (s : Srec) (xs : List ℕ) → write_newline (emit s xs) ≡ emit s (xs ++ newline s.asciiout)
unfolding write_newline emit put
newline-emit s xs = elim (Bool-cases s.asciiout) [
  | inl e ↦ rw (e, append_assoc)
  | inr e ↦ rw (e, append_assoc, append_assoc)
]

hex-append : (xs ys : List ℕ) → hex (xs ++ ys) ≡ hex xs ++ hex ys
hex-append [] ys = refl
hex-append (x ∷ xs) ys = rw (hex-append xs ys)

-- The line of a record, from its parts.
closing :
    (s : Srec) (asciiout : Bool) (head tail : List ℕ) (checksum p : ℕ)
    → record (emit s (head ++ ((hex tail ++ hex (checksum ∷ [])) ++ newline asciiout))) {
      srec_pc = p;
      buffer = [];
    }
      ≡ record s {
        file = s.file ++ (head ++ (hex (tail ++ checksum ∷ []) ++ newline asciiout));
        srec_pc = p;
        buffer = [];
      }
unfolding emit
closing s asciiout head tail checksum p = rw hex-append

emit-nil : (s : Srec) → emit s [] ≡ s
unfolding emit
emit-nil s = ap (λ f. record s { file = f }) (append-nil s.file)

-- The checksum of the loop over the data.
abbrev added : ℕ → List ℕ → ℕ
added c [] = c
added c (d ∷ ds) = added ((c + d) % 2 ^ 8) ds

added-sum : (ds : List ℕ) (c : ℕ) → c < 256 → added c ds ≡ (c + sum ds) % 256
added-sum [] c h = omega arith
added-sum (d ∷ ds) c h = added-sum ds ((c + d) % 2 ^ 8) (omega arith) ∙ omega arith

data-emit : (ds : List ℕ) (s : Srec) (c : ℕ) → write_data s ds c ≡ (emit s (hex ds), added c ds)
unfolding write_data
data-emit [] s c = rw emit-nil
data-emit (d ∷ ds) s c =
    rw (hex-emit s d, data-emit ds (emit s (hex (d ∷ []))) ((c + d) % 2 ^ 8), emit-emit)

-- A data record of type 1 to 3 with 1 to 32 octets is appended as one line, of the count, the
-- address, the data and the complement of their sum in hexadecimal, with message 11 if the address
-- does not fit the type; the next record begins behind it with an empty buffer.
pub write_data_buffer-line :
    (type : ℕ) (s : Srec)
    → 1 ≤ type
    → type ≤ 3
    → 0 < length s.buffer
    → length s.buffer ≤ 32
    → write_data_buffer type s ≡ record s {
      file = s.file ++ line s.asciiout type s.srec_pc s.buffer;
      errors = if ltb s.srec_pc (256 ^ (type + 1)) then s.errors else 11 ∷ s.errors;
      srec_pc = add64 s.srec_pc (length s.buffer);
      buffer = [];
    }
unfolding write_data_buffer
write_data_buffer-line zero s lo hi pos small = absurd (omega arith)
write_data_buffer-line (suc zero) s lo hi pos small =
    let z : (length s.buffer == 0) ≡ false = ground arith in
    let count : (length s.buffer + 2 + 1) % 2 ^ 8 ≡ length (address 2 s.srec_pc ++ s.buffer) + 1 =
      omega arith in
    let check : added
          ((((length s.buffer + 2 + 1) % 2 ^ 8 + s.srec_pc / 2 ^ 8 % 2 ^ 8) % 2 ^ 8
              + s.srec_pc % 2 ^ 8)
            % 2 ^ 8)
          s.buffer
        ≡ sum (counted (address 2 s.srec_pc ++ s.buffer)) % 256 =
      added-sum s.buffer _ (omega arith) ∙ omega arith in
    elim (Bool-cases (ltb s.srec_pc (256 ^ 2))) [
      | inl fits ↦
          let u : (s.srec_pc / 2 ^ 16 == 0) ≡ true = ground arith in
          rw
            (
              z, fits, u, put-emit, put-emit, hex-emit, hex-emit, hex-emit, data-emit, hex-emit,
              emit-emit, emit-emit, emit-emit, emit-emit, emit-emit, emit-emit, newline-emit, check,
              count,
            )
            (closing s s.asciiout
              (83 ∷ 49 ∷ hex ((length (address 2 s.srec_pc ++ s.buffer) + 1) ∷ address 2 s.srec_pc))
              s.buffer (255 - sum (counted (address 2 s.srec_pc ++ s.buffer)) % 256)
              (add64 s.srec_pc (length s.buffer)))
      | inr fits ↦
          let u : (s.srec_pc / 2 ^ 16 == 0) ≡ false = ground arith in
          rw
            (
              z, fits, u, put-emit, put-emit, hex-emit, hex-emit, hex-emit, data-emit, hex-emit,
              emit-emit, emit-emit, emit-emit, emit-emit, emit-emit, emit-emit, newline-emit, check,
              count,
            )
            (closing (record s { errors = 11 ∷ s.errors }) s.asciiout
              (83 ∷ 49 ∷ hex ((length (address 2 s.srec_pc ++ s.buffer) + 1) ∷ address 2 s.srec_pc))
              s.buffer (255 - sum (counted (address 2 s.srec_pc ++ s.buffer)) % 256)
              (add64 s.srec_pc (length s.buffer)))
    ]
write_data_buffer-line (suc (suc zero)) s lo hi pos small =
    let z : (length s.buffer == 0) ≡ false = ground arith in
    let count : (length s.buffer + 2 + 2) % 2 ^ 8 ≡ length (address 3 s.srec_pc ++ s.buffer) + 1 =
      omega arith in
    let check : added
          (((((length s.buffer + 2 + 2) % 2 ^ 8 + s.srec_pc / 2 ^ 16 % 2 ^ 8) % 2 ^ 8
                  + s.srec_pc / 2 ^ 8 % 2 ^ 8)
                % 2 ^ 8
              + s.srec_pc % 2 ^ 8)
            % 2 ^ 8)
          s.buffer
        ≡ sum (counted (address 3 s.srec_pc ++ s.buffer)) % 256 =
      added-sum s.buffer _ (omega arith) ∙ omega arith in
    elim (Bool-cases (ltb s.srec_pc (256 ^ 3))) [
      | inl fits ↦
          let u : (s.srec_pc / 2 ^ 24 == 0) ≡ true = ground arith in
          rw
            (
              z, fits, u, put-emit, put-emit, hex-emit, hex-emit, hex-emit, hex-emit, data-emit,
              hex-emit, emit-emit, emit-emit, emit-emit, emit-emit, emit-emit, emit-emit, emit-emit,
              newline-emit, check, count,
            )
            (closing s s.asciiout
              (83 ∷ 50 ∷ hex ((length (address 3 s.srec_pc ++ s.buffer) + 1) ∷ address 3 s.srec_pc))
              s.buffer (255 - sum (counted (address 3 s.srec_pc ++ s.buffer)) % 256)
              (add64 s.srec_pc (length s.buffer)))
      | inr fits ↦
          let u : (s.srec_pc / 2 ^ 24 == 0) ≡ false = ground arith in
          rw
            (
              z, fits, u, put-emit, put-emit, hex-emit, hex-emit, hex-emit, hex-emit, data-emit,
              hex-emit, emit-emit, emit-emit, emit-emit, emit-emit, emit-emit, emit-emit, emit-emit,
              newline-emit, check, count,
            )
            (closing (record s { errors = 11 ∷ s.errors }) s.asciiout
              (83 ∷ 50 ∷ hex ((length (address 3 s.srec_pc ++ s.buffer) + 1) ∷ address 3 s.srec_pc))
              s.buffer (255 - sum (counted (address 3 s.srec_pc ++ s.buffer)) % 256)
              (add64 s.srec_pc (length s.buffer)))
    ]
write_data_buffer-line (suc (suc (suc zero))) s lo hi pos small =
    let z : (length s.buffer == 0) ≡ false = ground arith in
    let count : (length s.buffer + 2 + 3) % 2 ^ 8 ≡ length (address 4 s.srec_pc ++ s.buffer) + 1 =
      omega arith in
    let check : added
          ((((((length s.buffer + 2 + 3) % 2 ^ 8 + s.srec_pc / 2 ^ 24 % 2 ^ 8) % 2 ^ 8
                      + s.srec_pc / 2 ^ 16 % 2 ^ 8)
                    % 2 ^ 8
                  + s.srec_pc / 2 ^ 8 % 2 ^ 8)
                % 2 ^ 8
              + s.srec_pc % 2 ^ 8)
            % 2 ^ 8)
          s.buffer
        ≡ sum (counted (address 4 s.srec_pc ++ s.buffer)) % 256 =
      added-sum s.buffer _ (omega arith) ∙ omega arith in
    elim (Bool-cases (ltb s.srec_pc (256 ^ 4))) [
      | inl fits ↦
          let u : (s.srec_pc / 2 ^ 32 == 0) ≡ true = ground arith in
          rw
            (
              z, fits, u, put-emit, put-emit, hex-emit, hex-emit, hex-emit, hex-emit, hex-emit,
              data-emit, hex-emit, emit-emit, emit-emit, emit-emit, emit-emit, emit-emit, emit-emit,
              emit-emit, emit-emit, newline-emit, check, count,
            )
            (closing s s.asciiout
              (83 ∷ 51 ∷ hex ((length (address 4 s.srec_pc ++ s.buffer) + 1) ∷ address 4 s.srec_pc))
              s.buffer (255 - sum (counted (address 4 s.srec_pc ++ s.buffer)) % 256)
              (add64 s.srec_pc (length s.buffer)))
      | inr fits ↦
          let u : (s.srec_pc / 2 ^ 32 == 0) ≡ false = ground arith in
          rw
            (
              z, fits, u, put-emit, put-emit, hex-emit, hex-emit, hex-emit, hex-emit, hex-emit,
              data-emit, hex-emit, emit-emit, emit-emit, emit-emit, emit-emit, emit-emit, emit-emit,
              emit-emit, emit-emit, newline-emit, check, count,
            )
            (closing (record s { errors = 11 ∷ s.errors }) s.asciiout
              (83 ∷ 51 ∷ hex ((length (address 4 s.srec_pc ++ s.buffer) + 1) ∷ address 4 s.srec_pc))
              s.buffer (255 - sum (counted (address 4 s.srec_pc ++ s.buffer)) % 256)
              (add64 s.srec_pc (length s.buffer)))
    ]
write_data_buffer-line (suc (suc (suc (suc n)))) s lo hi pos small = absurd (omega arith)
