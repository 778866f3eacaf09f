-- ===== src/Tests/Wire.antt =====
-- A short envelope.
use openburrow.Prelude.{
  ◌≡◌, refl, Option, none, some, [], ◌∷◌, ◌++◌, codes, Text, text_eq, all, ltb, if◌then◌else◌,
}
use openburrow.Wire.{
  Bytes, SshSignature, read_sshsig, ssh_string, to_bytes, is_sshsig, read_all, read_fields,
  ssh_take, from_bytes, slice,
}
use openburrow.Wire.Envelope.{write_sshsig, read_sshsig-write_sshsig}

abbrev signature : SshSignature
signature = record {
  key_blob = codes "key";
  namespace = codes "openburrow-relay";
  message_hash = codes "sha512";
  signature_format = codes "ssh-ed25519";
  signature = 1 ∷ 2 ∷ 255 ∷ [];
}

abbrev raw : Bytes
raw =
    codes "SSHSIG"
    ++ 0 ∷ 0 ∷ 0 ∷ 1 ∷ 0 ∷ 0 ∷ 0 ∷ 3 ∷ codes "key"
    ++ 0 ∷ 0 ∷ 0 ∷ 16 ∷ codes "openburrow-relay"
    ++ 0 ∷ 0 ∷ 0 ∷ 0 ∷ 0 ∷ 0 ∷ 0 ∷ 6 ∷ codes "sha512"
    ++ 0 ∷ 0 ∷ 0 ∷ 22 ∷ 0 ∷ 0 ∷ 0 ∷ 11 ∷ codes "ssh-ed25519"
    ++ 0 ∷ 0 ∷ 0 ∷ 3 ∷ 1 ∷ 2 ∷ 255 ∷ []

-- The codec of a text of ASCII characters.
abbrev ascii : Text → Bytes
ascii t = t

abbrev from_ascii : Bytes → Option Text
from_ascii bs = if all (λ b. ltb b 128) bs then some bs else none

read_sshsig-write_sshsig_example : read_sshsig from_ascii raw ≡ some signature
unfolding ssh_string to_bytes
read_sshsig-write_sshsig_example =
    read_sshsig-write_sshsig ascii from_ascii [] signature refl refl refl raw refl

abbrev foreign : SshSignature
foreign = record signature { namespace = 255 ∷ [] }

abbrev bytes_or_nil : Option Bytes → Bytes
bytes_or_nil none = []
bytes_or_nil (some bs) = bs

-- A namespace that is not in the codec makes the envelope malformed.
malformed : read_sshsig from_ascii (bytes_or_nil (write_sshsig ascii [] foreign)) ≡ none
unfolding read_sshsig is_sshsig read_all read_fields ssh_take ssh_string to_bytes from_bytes slice
    text_eq
malformed = refl
