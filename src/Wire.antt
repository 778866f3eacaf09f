-- ===== src/Wire.antt =====
-- The SSH wire format of packages/openburrow-relay/src/openburrow/relay/security.py: `_ssh_string`, `_ssh_take`, the
-- fields of `_read_sshsig`, and the DER form of an ECDSA signature. Bytes are numbers. The base64 of the armor is of
-- the standard library, so that the reading begins with the bytes that it decodes to; `bytes.decode("utf-8")` is an argument, which gives none
-- where it raises UnicodeDecodeError.
pub mod Strings
pub mod Envelope
use openburrow.Prelude.{
  ℕ, zero, suc, ◌+◌, ◌-◌, ◌*◌, Bool, true, false, ◌&&◌, Option, none, some, List, [], ◌∷◌, ◌++◌,
  codes, Text, text_eq, length, take, drop, if◌then◌else◌, ltb, leb, ◌==◌,
}
use Prim.Native.Nat.{◌/◌, ◌%◌}

abbrev pub Bytes : Type 0
Bytes = List ℕ

-- `int.to_bytes(4, "big")`, which raises where four bytes are too few
unfoldable pub to_bytes : ℕ → Option Bytes
to_bytes n =
    if ltb n 4_294_967_296
    then some (n / 16_777_216 ∷ n / 65_536 % 256 ∷ n / 256 % 256 ∷ n % 256 ∷ [])
    else none

-- `int.from_bytes(..., "big")`
unfoldable pub from_bytes : ℕ → Bytes → ℕ
from_bytes acc [] = acc
from_bytes acc (b ∷ bs) = from_bytes (acc * 256 + b) bs

-- `raw[first:last]`
unfoldable pub slice : Bytes → ℕ → ℕ → Bytes
slice raw first last = take (last - first) (drop first raw)

abbrev prefixed : Bytes → Option Bytes → Option Bytes
prefixed value none = none
prefixed value (some size) = some (size ++ value)

-- `_ssh_string`
unfoldable pub ssh_string : Bytes → Option Bytes
ssh_string value = prefixed value (to_bytes (length value))

-- `_ssh_take`
unfoldable pub ssh_take : Bytes → ℕ → Option (Bytes × ℕ)
ssh_take raw at =
    if ltb (length raw) (at + 4)
    then none
    else let last = at + 4 + from_bytes 0 (slice raw at (at + 4)) in
      if ltb (length raw) last then none else some (slice raw (at + 4) last, last)

-- The fields of an envelope, as they stand in the buffer.
abbrev pub cons_field : Bytes → Option (List Bytes × ℕ) → Option (List Bytes × ℕ)
cons_field value none = none
cons_field value (some (values, at)) = some (value ∷ values, at)

abbrev pub after_field :
    Option (Bytes × ℕ) → (ℕ → Option (List Bytes × ℕ)) → Option (List Bytes × ℕ)
after_field none next = none
after_field (some (value, at)) next = cons_field value (next at)

-- The loop of a number of rounds of `_sshsig_field`; none is the error.
unfoldable pub read_fields : ℕ → Bytes → ℕ → Option (List Bytes × ℕ)
read_fields zero raw at = some ([], at)
read_fields (suc n) raw at = after_field (ssh_take raw at) (read_fields n raw)

-- All of a buffer, with no byte behind it
abbrev pub whole : Bytes → Option (List Bytes × ℕ) → Option (List Bytes)
whole raw none = none
whole raw (some (fields, at)) = if at == length raw then some fields else none

unfoldable pub read_all : ℕ → Bytes → ℕ → Option (List Bytes)
read_all n raw at = whole raw (read_fields n raw at)

abbrev pub sshsig_magic : Bytes
sshsig_magic = codes "SSHSIG"

pub record SshSignature : Type 0 where
  pub key_blob : Bytes
  pub namespace : Text
  pub message_hash : Text
  pub signature_format : Text
  pub signature : Bytes

abbrev pub texts_decoded :
    Bytes → Bytes → Option Text → Option Text → Option Text → Option SshSignature
texts_decoded key sig (some space) (some hash) (some format) = some record {
  key_blob = key;
  namespace = space;
  message_hash = hash;
  signature_format = format;
  signature = sig;
}
texts_decoded key sig _ _ _ = none

abbrev pub signed :
    (Bytes → Option Text) → Bytes → Bytes → Bytes → Option (List Bytes) → Option SshSignature
signed decode key space hash (some (format ∷ sig ∷ [])) =
    texts_decoded key sig (decode space) (decode hash) (decode format)
signed decode key space hash _ = none

abbrev pub unwrapped : (Bytes → Option Text) → Option (List Bytes) → Option SshSignature
unwrapped decode (some (key ∷ space ∷ reserved ∷ hash ∷ blob ∷ [])) =
    signed decode key space hash (read_all 2 blob 0)
unwrapped decode _ = none

-- The magic bytes and the version
unfoldable pub is_sshsig : Bytes → Bool
is_sshsig raw =
    text_eq (take 6 raw) sshsig_magic
    && (leb 10 (length raw) && (from_bytes 0 (slice raw 6 10) == 1))

-- `_read_sshsig` from the bytes of the armor; none is `_MalformedSshsigError`
unfoldable pub read_sshsig : (Bytes → Option Text) → Bytes → Option SshSignature
read_sshsig decode raw = if is_sshsig raw then unwrapped decode (read_all 5 raw 10) else none

-- `lstrip(b"\x00") or b"\x00"`
unfoldable pub strip_zeros : Bytes → Bytes
strip_zeros [] = 0 ∷ []
strip_zeros (zero ∷ bs) = strip_zeros bs
strip_zeros (suc b ∷ bs) = suc b ∷ bs

-- The sign bit of the first byte
abbrev signed_bytes : Bytes → Bytes
signed_bytes [] = []
signed_bytes (b ∷ bs) = if leb 128 b then 0 ∷ b ∷ bs else b ∷ bs

-- `bytes([n])`, which raises from 256 on
abbrev byte_then : ℕ → ℕ → Bytes → Option Bytes
byte_then tag n bs = if ltb n 256 then some (tag ∷ n ∷ bs) else none

-- `_der_integer`
unfoldable pub der_integer : Bytes → Option Bytes
der_integer value = let v = signed_bytes (strip_zeros value) in byte_then 2 (length v) v

abbrev sequence : Option Bytes → Option Bytes → Option Bytes
sequence (some r) (some s) = byte_then 48 (length (r ++ s)) (r ++ s)
sequence _ _ = none

abbrev pair : Option (List Bytes) → Option Bytes
pair (some (r ∷ s ∷ [])) = sequence (der_integer r) (der_integer s)
pair _ = none

-- `_ecdsa_ssh_to_der`; none where it is refused or raises
unfoldable pub ecdsa_ssh_to_der : Bytes → Option Bytes
ecdsa_ssh_to_der raw = pair (read_all 2 raw 0)
