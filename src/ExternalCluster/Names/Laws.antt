-- ===== src/ExternalCluster/Names/Laws.antt =====
-- Keys and remote names, and what is read back of them.
use Prim.Native.String.{String}
use text.Mathlib.TextLemmas.{nil-append, cons-append}
use cluster_api_control_plan.Base.{
  ◌&&◌, ◌≢◌, is_some, lookup, entries, Entries, contains, All, map, Bool-cases, inl, inr, ◌≡◌, refl,
  ap, ◌∙◌, false, ◌<>◌, ◌==◌, [], ◌∷◌, arith, eq_iff,
}
use cluster_api_control_plan.GoNet.{split, has_char, has_prefix}
use cluster_api_control_plan.GoNet.Splitting.{
  split-append, split-single, trim_prefix-append, has_prefix-append, append-trim_prefix,
}
use cluster_api_control_plan.Objects.{Secret, Bytes}
use cluster_api_control_plan.ExternalCluster.Names.{
  key_name, generate_key_name_from_secret, uid_of_name, remote_tcp_prefix,
}

-- Neither a namespace, nor a name, nor a key of a Secret has a slash.
pub record IsPlain (namespace name key : String) : Type 0 where
  pub namespace_plain : has_char b'/' namespace ≡ false
  pub name_plain : has_char b'/' name ≡ false
  pub key_plain : has_char b'/' key ≡ false

slash : (s : String) → "/" <> s ≡ String.◌∷◌ "/" s
slash s = cons-append "/" "" s ∙ ap (String.◌∷◌ "/") (nil-append s)

key_name-regroup :
    (namespace name key : String)
    → key_name namespace name key ≡ namespace <> String.◌∷◌ "/" (name <> String.◌∷◌ "/" key)
key_name-regroup namespace name key = rw (slash, slash)

-- `strings.Split` takes a key apart into the namespace, the name and the key of the Secret.
pub split-key_name :
    (namespace name key : String)
    → IsPlain namespace name key
    → split b'/' (key_name namespace name key) ≡ namespace ∷ name ∷ key ∷ []
split-key_name namespace name key p = rw (
  key_name-regroup,
  split-append b'/' "/" namespace (name <> String.◌∷◌ "/" key) refl p.namespace_plain,
  split-append b'/' "/" name key refl p.name_plain,
  split-single b'/' key p.key_plain,
)

-- Keys are equal only if all three parts are.
pub key_name-injective :
    (s n k s' n' k' : String)
    → IsPlain s n k
    → IsPlain s' n' k'
    → (key_name s n k == key_name s' n' k') ≡ (s == s' && n == n' && k == k')
key_name-injective s n k s' n' k' p p' = ground (
  arith,
  eq_iff (key_name s n k) (key_name s' n' k'),
  eq_iff s s',
  eq_iff n n',
  eq_iff k k',
  split-key_name s n k p,
  split-key_name s' n' k' p',
)

contains-keys :
    (s n k s' n' : String)
    → IsPlain s n k
    → (m : Entries Bytes) → All (λ (j, _). IsPlain s' n' j) m
    → contains (key_name s n k) (map (λ (j, _). key_name s' n' j) m)
      ≡ (s' == s && n' == n && is_some (lookup k m))
unfolding contains lookup
contains-keys s n k s' n' p [] all = ground arith
contains-keys s n k s' n' p ((j, v) ∷ m) (q, all) =
    ground (arith, key_name-injective s' n' j s n k q p, contains-keys s n k s' n' p m all)

-- A key is among those of a Secret exactly when namespace and name are the Secret's and the Secret
-- has an entry of the key's last part.
pub contains-secret_keys :
    (s n k : String) (secret : Secret)
    → IsPlain s n k
    → All (λ (j, _). IsPlain secret.meta.namespace secret.meta.name j) (entries secret.contents)
    → contains (key_name s n k) (generate_key_name_from_secret secret) ≡ (
        secret.meta.namespace == s
        && secret.meta.name == n
        && is_some (lookup k (entries secret.contents)))
unfolding generate_key_name_from_secret
contains-secret_keys s n k secret p all =
    contains-keys s n k secret.meta.namespace secret.meta.name p (entries secret.contents) all

-- The UID is read back from the name that was made of it.
pub uid_of_name-prefix : (uid : String) → uid_of_name (remote_tcp_prefix <> uid) ≡ uid
unfolding uid_of_name
uid_of_name-prefix uid = rw (has_prefix-append, trim_prefix-append)

-- A name whose UID is not empty is the prefix and the UID.
prefix-uid_of_name :
    (name : String) → uid_of_name name ≢ "" → remote_tcp_prefix <> uid_of_name name ≡ name
unfolding uid_of_name
prefix-uid_of_name name h = elim (Bool-cases (has_prefix name remote_tcp_prefix)) [
  | inl y ↦ rw y (append-trim_prefix remote_tcp_prefix name y)
  | inr n ↦ absurd (h (rw n))
]
