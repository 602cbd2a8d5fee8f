-- ===== src/Vobj/Header.antt =====
-- The header of a VOBJ file, as `write_output` writes it and `vobjdump` reads it.
use mathlib.Core.List.{append_assoc}
use vasm_ext.Common.Octets.{IsOctets}
use vasm_ext.Common.Chars.{IsName}
use vasm_ext.Common.{
  ℕ, ◌+◌, ◌*◌, ◌/◌, ◌%◌, ◌^◌, ◌<◌, ◌≤◌, ◌≡◌, ◌⊎◌, inl, inr, refl, arith, Bool, true, false, not,
  ◌&&◌, ◌||◌, Option, none, some, List, [], ◌∷◌, ◌++◌, ltb, ◌==◌, if◌then◌else◌, bit_or, ap, ◌∙◌,
}
use vasm_ext.Supp.{fw8, fw32}
use vasm_ext.Vobj.Record.{skip_string-write_string, write_string-append, unsigned, after_number}
use vasm_ext.Vobj.{write_number, write_string, read_number, skip_string}

-- The target, as the header says it; `version` is 0, 4 or 8.
pub record Target : Type 0 where
  pub bigendian : Bool
  pub bitsperbyte : ℕ
  pub bytespertaddr : ℕ
  pub cpuname : List ℕ

unfoldable pub write_header : ℕ → List ℕ → Target → ℕ → ℕ → List ℕ
write_header version f t nsecs nsyms =
    let f₁ = fw32 f 0x564f424a true in
    let f₂ = fw8 f₁ (bit_or (if t.bigendian then 1 else 2) version) in
    let f₃ = write_number version f₂ t.bitsperbyte in
    let f₄ = write_number version f₃ t.bytespertaddr in
    let f₅ = write_string f₄ t.cpuname in
    let f₆ = write_number version f₅ nsecs in write_number version f₆ nsyms

-- What the dumper knows behind the header; `ver` counts from 1.
pub record Header : Type 0 where
  pub ver : ℕ
  pub target : Target
  pub nsecs : ℕ
  pub nsyms : ℕ

-- How reading the header ends.
pub data Read : Type 0 where
  header : Header → List ℕ → Read
  not_vobj : Read
  bad_version : ℕ → Read
  bad_endianness : ℕ → Read
  bad_bits : ℕ → Read
  bad_bytes : ℕ → Read
  corrupt : Read

infixl 5 ◌>>=◌
abbrev pub ◌>>=◌ : {A : Type 0} → Option A → (A → Read) → Read
none >>= f = corrupt
some a >>= f = f a

-- The counts behind the name of the processor.
abbrev pub read_counts : ℕ → Bool → ℕ → ℕ → List ℕ → Read
read_counts ver big bpb bpt p = do
  cpu ← skip_string p
  nsecs ← read_number (bpb * bpt) false cpu.1
  nsyms ← read_number (bpb * bpt) false nsecs.1
  header
      (record {
        ver = ver;
        target = record {
          bigendian = big;
          bitsperbyte = bpb;
          bytespertaddr = bpt;
          cpuname = cpu.0;
        };
        nsecs = nsecs.0 % 2 ^ 32;
        nsyms = nsyms.0 % 2 ^ 32;
      })
      nsyms.1

-- The sizes of bytes and addresses, which `read_number` takes as unsigned.
abbrev pub read_sizes : ℕ → Bool → List ℕ → Read
read_sizes ver big p = do
  bpb ← read_number 0 false p
  (if not (bpb.0 % 2 ^ 32 % 8 == 0) then bad_bits (bpb.0 % 2 ^ 32) else (do
    bpt ← read_number 0 false bpb.1
    (if ltb 8 ((bpb.0 % 2 ^ 32 * (bpt.0 % 2 ^ 32) + 7) / 8)
        then bad_bytes (bpt.0 % 2 ^ 32)
        else read_counts ver big (bpb.0 % 2 ^ 32) (bpt.0 % 2 ^ 32) bpt.1)))

-- The octet of the endianness and the version.
abbrev pub read_format : ℕ → List ℕ → Read
read_format e p =
    if ltb 3 (e / 4 + 1)
    then bad_version (e / 4 + 1)
    else if not ((e % 4 == 1) || (e % 4 == 2))
    then bad_endianness (e % 4)
    else read_sizes (e / 4 + 1) (e % 4 == 1) p

unfoldable pub read_header : List ℕ → Read
read_header (a ∷ b ∷ c ∷ d ∷ e ∷ p) =
    if (a == 0x56) && (b == 0x4f) && (c == 0x42) && (d == 0x4a) then read_format e p else not_vobj
read_header l = not_vobj

pub record IsSound (t : Target) : Type 0 where
  pub octets : t.bitsperbyte % 8 ≡ 0
  pub bits : t.bitsperbyte * t.bytespertaddr ≤ 64
  pub bitsperbyte_lt : t.bitsperbyte < 2 ^ 31
  pub bytespertaddr_lt : t.bytespertaddr < 2 ^ 31
  pub name_octets : IsOctets t.cpuname
  pub name_chars : IsName t.cpuname

-- The three versions of the format.
abbrev pub IsVersion : ℕ → Type 0
IsVersion v = (v ≡ 0) ⊎ (v ≡ 4) ⊎ (v ≡ 8)

format_octet : Bool → ℕ → ℕ
format_octet big version = bit_or (if big then 1 else 2) version

format_lem :
    (big : Bool) (version : ℕ) (p : List ℕ)
    → IsVersion version
    → (format_octet big version % 2 ^ 8 ≡ format_octet big version)
      × (read_format (format_octet big version) p ≡ read_sizes (version / 4 + 1) big p)
unfolding format_octet
format_lem true version p (inl e) = rw e (refl, refl)
format_lem true version p (inr (inl e)) = rw e (refl, refl)
format_lem true version p (inr (inr e)) = rw e (refl, refl)
format_lem false version p (inl e) = rw e (refl, refl)
format_lem false version p (inr (inl e)) = rw e (refl, refl)
format_lem false version p (inr (inr e)) = rw e (refl, refl)

-- The octets behind the name of the format.
header_octets :
    (version : ℕ) (t : Target) (nsecs nsyms : ℕ)
    → write_header version [] t nsecs nsyms
      ≡ (0x56 ∷ 0x4f ∷ 0x42 ∷ 0x4a ∷ format_octet t.bigendian version % 2 ^ 8 ∷ [])
        ++ write_number version [] t.bitsperbyte
        ++ write_number version [] t.bytespertaddr
        ++ write_string [] t.cpuname
        ++ write_number version [] nsecs
        ++ write_number version [] nsyms
unfolding write_header fw32 fw8 format_octet
header_octets version t nsecs nsyms =
    let numbers = after_number version t.bytespertaddr (after_number version t.bitsperbyte refl) in
    after_number version nsyms (
      after_number version nsecs
        (write_string-append _ t.cpuname ∙ ap (λ l. l ++ write_string [] t.cpuname) numbers))

read_sizes_lem :
    (version ver : ℕ) (t : Target) (nsecs nsyms : ℕ) (rest : List ℕ)
    → IsSound t
    → nsecs < 2 ^ 32
    → nsyms < 2 ^ 32
    → read_sizes ver t.bigendian (
        write_number version [] t.bitsperbyte
        ++ (write_number version [] t.bytespertaddr
            ++ (write_string [] t.cpuname
                ++ (write_number version [] nsecs ++ (write_number version [] nsyms ++ rest)))))
      ≡ header (record { ver = ver; target = t; nsecs = nsecs; nsyms = nsyms }) rest
read_sizes_lem version ver t nsecs nsyms rest s a b =
    let n = λ (v : ℕ). write_number version [] v in
    let r₁ = n nsyms ++ rest in
    let r₂ = n nsecs ++ r₁ in
    let r₃ = write_string [] t.cpuname ++ r₂ in
    let bits = t.bitsperbyte * t.bytespertaddr in
    let m₁ : t.bitsperbyte % 2 ^ 32 ≡ t.bitsperbyte = omega (arith, s.bitsperbyte_lt) in
    let m₂ : t.bytespertaddr % 2 ^ 32 ≡ t.bytespertaddr = omega (arith, s.bytespertaddr_lt) in
    let m₃ : nsecs % 2 ^ 32 ≡ nsecs = omega arith in
    let m₄ : nsyms % 2 ^ 32 ≡ nsyms = omega arith in
    let fits : ltb 8 ((bits + 7) / 8) ≡ false = ground (arith, s.bits) in
    rw
      (
        unsigned version 0 t.bitsperbyte (n t.bytespertaddr ++ r₃)
            (omega (arith, s.bitsperbyte_lt)),
        m₁,
        s.octets,
        unsigned version 0 t.bytespertaddr r₃ (omega (arith, s.bytespertaddr_lt)),
        m₂,
        fits,
        skip_string-write_string t.cpuname r₂ s.name_chars s.name_octets,
        unsigned version bits nsecs r₁ (omega arith),
        unsigned version bits nsyms rest (omega arith),
        m₃,
        m₄,
      )
      refl

-- The dumper finds in the header what was written to it.
pub read_header-write_header :
    (version : ℕ) (t : Target) (nsecs nsyms : ℕ) (rest : List ℕ)
    → IsVersion version
    → IsSound t
    → nsecs < 2 ^ 32
    → nsyms < 2 ^ 32
    → read_header (write_header version [] t nsecs nsyms ++ rest)
      ≡ header (record { ver = version / 4 + 1; target = t; nsecs = nsecs; nsyms = nsyms }) rest
unfolding read_header
read_header-write_header version t nsecs nsyms rest v s a b =
    let n = λ (x : ℕ). write_number version [] x in
    let r₁ = n nsyms ++ rest in
    let name = write_string [] t.cpuname in
    let p = n t.bitsperbyte ++ (n t.bytespertaddr ++ (name ++ (n nsecs ++ r₁))) in
    let format = format_lem t.bigendian version p v in
    rw
      (
        header_octets version t nsecs nsyms,
        append_assoc (n t.bitsperbyte ++ n t.bytespertaddr ++ name ++ n nsecs) (n nsyms) rest,
        append_assoc (n t.bitsperbyte ++ n t.bytespertaddr ++ name) (n nsecs) r₁,
        append_assoc (n t.bitsperbyte ++ n t.bytespertaddr) name (n nsecs ++ r₁),
        append_assoc (n t.bitsperbyte) (n t.bytespertaddr) (name ++ (n nsecs ++ r₁)),
        format.0,
        format.1,
      )
      (read_sizes_lem version (version / 4 + 1) t nsecs nsyms rest s a b)
