-- ===== src/Inventory/HostKey.antt =====
-- `valid_host_key` of src/vpsmcp/inventory.py. `b64decode` is base64.b64decode(blob, validate=True), none
-- where it raises; a byte is a number.
use Prim.Native.String.{[], ◌∷◌}
use Prim.Native.Char.{code}
use letkite_lite.Prelude.{
  ℕ, ◌+◌, ◌*◌, Bool, true, false, not, ◌&&◌, ◌||◌, String, Option, none, some, List, length, take,
  drop, mem, leb, eqb, ltb, if◌then◌else◌, non_empty,
}
use letkite_lite.Prelude.Text.{split_on}

abbrev pub key_types : List String
key_types = List.◌∷◌ "ssh-ed25519" (
    List.◌∷◌ "ssh-rsa" (
      List.◌∷◌ "ssh-dss" (
        List.◌∷◌ "ecdsa-sha2-nistp256" (
          List.◌∷◌ "ecdsa-sha2-nistp384" (
            List.◌∷◌ "ecdsa-sha2-nistp521" (
              List.◌∷◌ "sk-ssh-ed25519@openssh.com"
                (List.◌∷◌ "sk-ecdsa-sha2-nistp256@openssh.com" List.[])))))))

-- `chr(c) in s`
unfoldable pub has_code : ℕ → String → Bool
has_code c [] = false
has_code c (d ∷ s) = eqb (code d) c || has_code c s

-- int.from_bytes(b, "big")
abbrev from_big : ℕ → List ℕ → ℕ
from_big acc List.[] = acc
from_big acc (List.◌∷◌ b bs) = from_big (acc * 256 + b) bs

-- b.decode("ascii", "replace") == s, for an ASCII text s
abbrev decodes_to : List ℕ → String → Bool
decodes_to List.[] [] = true
decodes_to List.[] (c ∷ s) = false
decodes_to (List.◌∷◌ b bs) [] = false
decodes_to (List.◌∷◌ b bs) (c ∷ s) = eqb b (code c) && decodes_to bs s

abbrev blob_ok : String → Option (List ℕ) → Bool
blob_ok kind none = false
blob_ok kind (some raw) =
    let n = from_big 0 (take 4 raw) in
    if ltb (length raw) 4
    then false
    else leb (4 + n) (length raw) && decodes_to (take n (drop 4 raw)) kind

abbrev parts_ok : (String → Option (List ℕ)) → List String → Bool
parts_ok b64decode List.[] = false
parts_ok b64decode (List.◌∷◌ kind List.[]) = false
parts_ok b64decode (List.◌∷◌ kind (List.◌∷◌ blob rest)) =
    if mem kind key_types then blob_ok kind (b64decode blob) else false

unfoldable pub valid_host_key : (String → Option (List ℕ)) → String → Bool
unfolding has_code
valid_host_key b64decode value =
    if not (non_empty value) || has_code 10 value || has_code 13 value
    then false
    else parts_ok b64decode (split_on 32 value)
