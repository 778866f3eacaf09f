-- ===== src/Wire/Envelope.antt =====
-- The envelope of an SSH signature, as OpenSSH's PROTOCOL.sshsig lays it out, and the reading of it.
use openburrow.Prelude.{
  ℕ, suc, ◌+◌, ◌≡◌, refl, sym, ap, ◌∙◌, subst, true, Option, none, some, some-injective, List, [],
  ◌∷◌, ◌++◌, append_assoc, append-nil, Text, text_eq, leb, length, length-append, arith,
}
use openburrow.Wire.{
  Bytes, ssh_string, cons_field, after_field, read_fields, whole, read_all, sshsig_magic,
  SshSignature, signed, unwrapped, is_sshsig, read_sshsig, from_bytes, slice,
}
use openburrow.Wire.Strings.{ssh_take-ssh_string}

-- Strings one after the other.
abbrev concatenated : Option Bytes → Option Bytes → Option Bytes
concatenated (some v) (some w) = some (v ++ w)
concatenated _ _ = none

abbrev pub encode_all : List Bytes → Option Bytes
encode_all [] = some []
encode_all (v ∷ vs) = concatenated (ssh_string v) (encode_all vs)

-- The parts of an encoding.
concatenated-parts :
    (a b : Option Bytes) (w : Bytes)
    → concatenated a b ≡ some w
    → (u v : Bytes) × (a ≡ some u) × (b ≡ some v) × (w ≡ u ++ v)
concatenated-parts (some u) (some v) w h = (u, v, refl, refl, sym (some-injective (u ++ v) w h))
concatenated-parts (some u) none w h = absurd (cc h)
concatenated-parts none b w h = absurd (cc h)

after_field-some :
    (a : Option (Bytes × ℕ)) (v : Bytes) (n : ℕ) (next : ℕ → Option (List Bytes × ℕ))
    (vs : List Bytes) (m : ℕ)
    → a ≡ some (v, n)
    → next n ≡ some (vs, m)
    → after_field a next ≡ some (v ∷ vs, m)
after_field-some a v n next vs m e f = rw e (ap (cons_field v) f)

whole-ends :
    (raw : Bytes) (vs : List Bytes) (n : ℕ) → length raw ≡ n → whole raw (some (vs, n)) ≡ some vs
whole-ends raw vs n e = ground (arith, e)

read_fields-encode_all :
    (vs : List Bytes) (w before after : Bytes)
    → encode_all vs ≡ some w
    → read_fields (length vs) (before ++ (w ++ after)) (length before)
      ≡ some (vs, length before + length w)
unfolding read_fields
read_fields-encode_all [] w before after h =
    let empty : [] ≡ w = some-injective [] w h in
    rw (← empty) (ap (λ n. some ([], n)) (omega arith))
read_fields-encode_all (v ∷ vs) w before after h =
    let (u, t, eu, et, ew) = concatenated-parts (ssh_string v) (encode_all vs) w h in
    let raw = before ++ (u ++ (t ++ after)) in
    let later : read_fields (length vs) raw (length before + length u)
        ≡ some (vs, length before + length u + length t) =
      subst
        (λ r.
          read_fields (length vs) r (length before + length u)
          ≡ some (vs, length before + length u + length t))
        (append_assoc before u (t ++ after))
        (subst
          (λ n. read_fields (length vs) ((before ++ u) ++ (t ++ after)) n ≡ some (vs, n + length t))
          (length-append before u) (read_fields-encode_all vs t (before ++ u) after et)) in
    let same : before ++ ((u ++ t) ++ after) ≡ raw =
      ap (λ r. before ++ r) (append_assoc u t after) in
    rw (ew, same)
      (after_field-some _ v (length before + length u) _ vs _
          (ssh_take-ssh_string v u before (t ++ after) eu) later
        ∙ ap (λ n. some (v ∷ vs, n)) (omega (arith, length-append u t)))

-- Fields that fill a buffer are read, and nothing else is.
pub read_all-encode_all :
    (vs : List Bytes) (w before : Bytes)
    → encode_all vs ≡ some w
    → read_all (length vs) (before ++ w) (length before) ≡ some vs
unfolding read_all
read_all-encode_all vs w before h =
    let raw = before ++ w in
    let same : before ++ (w ++ []) ≡ raw = ap (λ r. before ++ r) (append-nil w) in
    ap (whole raw) (
      subst (λ r. read_fields (length vs) r (length before) ≡ some (vs, length before + length w))
        same (read_fields-encode_all vs w before [] h))
    ∙ whole-ends raw vs (length before + length w) (length-append before w)

-- The layout of an envelope: the preamble, the version, the key, the namespace, a reserved field, the name of the hash,
-- and the signature, which is two strings itself.
abbrev fields_of : (Text → Bytes) → Bytes → SshSignature → Bytes → List Bytes
fields_of encode reserved s blob =
    s.key_blob ∷ encode s.namespace ∷ reserved ∷ encode s.message_hash ∷ blob ∷ []

abbrev inner : (Text → Bytes) → SshSignature → List Bytes
inner encode s = encode s.signature_format ∷ s.signature ∷ []

abbrev preamble : Bytes
preamble = sshsig_magic ++ 0 ∷ 0 ∷ 0 ∷ 1 ∷ []

abbrev under : Option Bytes → Option Bytes
under none = none
under (some w) = some (preamble ++ w)

abbrev with_blob : (Text → Bytes) → Bytes → SshSignature → Option Bytes → Option Bytes
with_blob encode reserved s none = none
with_blob encode reserved s (some blob) = under (encode_all (fields_of encode reserved s blob))

abbrev pub write_sshsig : (Text → Bytes) → Bytes → SshSignature → Option Bytes
write_sshsig encode reserved s = with_blob encode reserved s (encode_all (inner encode s))

ten : (n : ℕ) → leb 10 (suc (suc (suc (suc (suc (suc (suc (suc (suc (suc n)))))))))) ≡ true
ten n = ground arith

preamble-is_sshsig : (w : Bytes) → is_sshsig (preamble ++ w) ≡ true
unfolding is_sshsig text_eq from_bytes slice
preamble-is_sshsig w = rw (ten (length w)) refl

-- The codec gives the text back.
abbrev pub IsKept : (Text → Bytes) → (Bytes → Option Text) → Text → Type 0
IsKept encode decode t = decode (encode t) ≡ some t

module _ (encode : Text → Bytes) (decode : Bytes → Option Text) (reserved : Bytes)
    (s : SshSignature) (space : IsKept encode decode s.namespace)
    (hash : IsKept encode decode s.message_hash)
    (format : IsKept encode decode s.signature_format) where
  unwrapped-fields :
      (blob : Bytes)
      → encode_all (inner encode s) ≡ some blob
      → unwrapped decode (some (fields_of encode reserved s blob)) ≡ some s
  unwrapped-fields blob h =
      ap (signed decode s.key_blob (encode s.namespace) (encode s.message_hash))
        (read_all-encode_all (inner encode s) blob [] h)
      ∙ rw (space, hash, format) refl

  read_preamble :
      (fields : List Bytes) (w : Bytes)
      → encode_all fields ≡ some w
      → length fields ≡ 5
      → unwrapped decode (some fields) ≡ some s
      → read_sshsig decode (preamble ++ w) ≡ some s
  unfolding read_sshsig
  read_preamble fields w e five o =
      let all : unwrapped decode (read_all 5 (preamble ++ w) 10) ≡ some s =
        ap (unwrapped decode) (
          subst (λ n. read_all n (preamble ++ w) 10 ≡ some fields) five
            (read_all-encode_all fields w preamble e))
        ∙ o in
      rw (preamble-is_sshsig w) all

  read_blob :
      (blob raw : Bytes) (o : Option Bytes)
      → encode_all (inner encode s) ≡ some blob
      → encode_all (fields_of encode reserved s blob) ≡ o
      → under o ≡ some raw
      → read_sshsig decode raw ≡ some s
  read_blob blob raw none e f h = absurd (cc h)
  read_blob blob raw (some w) e f h =
      subst (λ r. read_sshsig decode r ≡ some s) (some-injective _ _ h)
        (read_preamble (fields_of encode reserved s blob) w f refl (unwrapped-fields blob e))

  read_under :
      (raw : Bytes) (o : Option Bytes)
      → encode_all (inner encode s) ≡ o
      → with_blob encode reserved s o ≡ some raw
      → read_sshsig decode raw ≡ some s
  read_under raw none e h = absurd (cc h)
  read_under raw (some blob) e h =
      read_blob blob raw (encode_all (fields_of encode reserved s blob)) e refl h

  -- An envelope that is laid out as the format says is read back, where each field is short enough to be written at all
  -- and the codec gives back the three texts that it holds.
  pub read_sshsig-write_sshsig :
      (raw : Bytes) → write_sshsig encode reserved s ≡ some raw → read_sshsig decode raw ≡ some s
  read_sshsig-write_sshsig raw h = read_under raw (encode_all (inner encode s)) refl h
