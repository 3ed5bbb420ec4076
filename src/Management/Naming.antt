-- ===== src/Management/Naming.antt =====
-- internal/management/resources.go (labels, names) and the ordinal test of migration.go.
use Prim.Native.Char.{code}
use Prim.Native.String.{len, slice}
use text.Mathlib.Text.{starts_with}
use karmada_with_pvmigration.Prelude.{
  String, Bool, true, false, not, ◌&&◌, ◌||◌, List, [], ◌∷◌, ◌<>◌, leb, ltb, decimal, if◌then◌else◌,
}
use karmada_with_pvmigration.Api.Core.{ObjectMeta, OwnerReference}
use karmada_with_pvmigration.Machinery.{Machinery, Unstructured, null}

abbrev pub opt_in_label : String
opt_in_label = "migration.dcnlab.com/pv-metadata"

abbrev pub owner_label : String
owner_label = "migration.dcnlab.com/migration-uid"

abbrev pub managed_label : String
managed_label = "migration.dcnlab.com/managed-by"

abbrev pub manager_name : String
manager_name = "pv-migration-system"

abbrev pub standalone_pair_label : String
standalone_pair_label = "migration.dcnlab.com/standalone-pair"

-- The metadata of an object that the program makes: a name, a namespace and no more.
abbrev pub named : String → String → ObjectMeta
named namespace name = record {
  name = name;
  namespace = namespace;
  uid = "";
  generation = 0;
  resource_version = "";
  labels = [];
  annotations = [];
  deleting = false;
  created = 0;
}

-- `object(gvk, namespace, name)`
abbrev pub new_object : String → String → String → Unstructured
new_object kind namespace name = record {
  kind = kind;
  meta = named namespace name;
  owners = [];
  spec = null;
  status = null;
}

abbrev pub controller_owner : String → String → String → String → OwnerReference
controller_owner api_version kind name uid = record {
  api_version = api_version;
  kind = kind;
  name = name;
  uid = uid;
  controller = true;
}

-- What `stableName` writes into the hash: each part behind its length in bytes.
unfoldable pub encode_parts : List String → String
encode_parts [] = ""
encode_parts (s ∷ parts) = decimal (len s) <> ":" <> s <> ";" <> encode_parts parts

unfoldable pub stable_name : Machinery → String → List String → String
stable_name k prefix parts = prefix <> "-" <> slice (k.sha256_hex (encode_parts parts)) 0 24

-- Every character is one of '0' to '9'.
abbrev pub all_digits : String → Bool
all_digits String.[] = true
all_digits (String.◌∷◌ c s) = (leb b'0' (code c) && leb (code c) b'9') && all_digits s

-- More than one byte, the first of them '0'.
unfoldable pub has_leading_zero : String → Bool
has_leading_zero suffix = ltb 1 (len suffix) && starts_with suffix "0"

unfoldable pub valid_ordinal_pvc : Machinery → String → String → Bool
unfolding has_leading_zero
valid_ordinal_pvc k name prefix =
    if leb (len name) (len prefix) || not (starts_with name prefix)
    then false
    else (let suffix = slice name (len prefix) (len name) in
        if has_leading_zero suffix
        then false
        else if not (all_digits suffix)
        then false
        else k.is_dns1123_subdomain name)

-- `strings.TrimPrefix`
unfoldable pub trim_prefix : String → String → String
trim_prefix s prefix = if starts_with s prefix then slice s (len prefix) (len s) else s
