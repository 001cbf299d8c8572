-- ===== src/Store/Mongo/Objects.antt =====
-- internal/store/object_store.go: the store for outputs that are too large for a document.
use Prim.Native.Char.{Char, code}
use Prim.Native.Nat.{compare, Ordering}
use Prim.Native.String.{◌++◌ as ◌<>◌}
use state_graph.Prelude.{
  sym, ◌⊎◌, inl, inr, ◌≡◌, String, Bool, true, false, ◌==◌, ◌&&◌, Option, none, some, List, [], ◌∷◌,
  if◌then◌else◌,
}
use state_graph.Values.{Error, object_not_found, no_such_key, wrapped, external}
use state_graph.Exec.{ok, Exec, pure, raise, branch, wrap, ◌>>=◌}

-- What `Body.Read` delivers, call by call: some bytes, and whether an error (`io.EOF` is one) came
-- with them.
pub record Chunk : Type 0 where
  pub bytes : String
  pub stopped : Bool

-- What the code uses of the S3 client.
pub record S3 (W : Type 0) : Type 0 where
  pub put_object : String → String → String → Exec W (Unit {0})
  pub get_object : String → String → Exec W (List Chunk)

pub record ObjectStore (W : Type 0) : Type 0 where
  pub client : S3 W
  pub bucket_name : String

-- strings.TrimPrefix and HasPrefix, on the scheme
abbrev pub after : Char → Option String → Option String
after c none = none
after c (some String.[]) = none
after c (some (String.◌∷◌ d s)) = elim (compare (code c) (code d)) [
  | Ordering.eq ↦ some s
  | _ ↦ none
]

unfoldable pub without_scheme : String → Option String
without_scheme uri = after "/" (after "/" (after ":" (after "3" (after "s" (some uri)))))

abbrev is_slash : Char → Bool
is_slash c = elim (compare (code c) 47) [ Ordering.eq ↦ true | _ ↦ false ]

-- what follows the first slash
unfoldable pub after_slash : String → Option String
after_slash String.[] = none
after_slash (String.◌∷◌ c s) = let rest = after_slash s in if is_slash c then some s else rest

abbrev pub is_empty : String → Bool
is_empty String.[] = true
is_empty (String.◌∷◌ c s) = false

-- strings.TrimRight(s, "/")
unfoldable pub trim_slashes : String → String
trim_slashes String.[] = String.[]
trim_slashes (String.◌∷◌ c s) =
    let rest = trim_slashes s in
    if is_slash c && is_empty rest then String.[] else String.◌∷◌ c rest

-- the read loop of Get, which ends at the first error
unfoldable pub read_all : List Chunk → String
read_all [] = ""
read_all (c ∷ cs) = let rest = read_all cs in if c.stopped then c.bytes else c.bytes <> rest

-- an answer of the server that it has no such key is told apart
abbrev get_failure : String → Error → Error
get_failure key no_such_key = object_not_found
get_failure key e = wrapped "object store: get" key e

module _ {W : Type 0} where
  -- `load` is config.LoadDefaultConfig with s3.NewFromConfig
  unfoldable pub new_object_store : Exec W (S3 W) → String → Exec W (ObjectStore W)
  unfolding without_scheme trim_slashes
  new_object_store load uri = elim (without_scheme uri) [
    | none ↦ raise (external "object store: URI must start with s3://")
    | some rest ↦
        if trim_slashes rest == ""
        then raise (external "object store: bucket name is empty in URI")
        else (do
          client ← wrap "object store: load AWS config" "" load
          pure (record { client = client; bucket_name = trim_slashes rest }))
  ]

  unfoldable pub put_object : ObjectStore W → String → String → Exec W (Unit {0})
  put_object s key bytes =
      wrap "object store: put" key (s.client.put_object s.bucket_name key bytes)

  unfoldable pub get_object : ObjectStore W → String → Exec W String
  unfolding read_all
  get_object s key =
      branch (s.client.get_object s.bucket_name key) (λ chunks. pure (read_all chunks))
        (λ e. raise (get_failure key e))

-- Reads that deliver these bytes: each gives the next of them, until one comes with an end.
abbrev pub Carries : List Chunk → String → Type 0
Carries [] bytes = ⊥
Carries (c ∷ cs) bytes =
    ((c.stopped ≡ true) × (c.bytes ≡ bytes))
    ⊎ ((c.stopped ≡ false) × ((rest : String) × (bytes ≡ c.bytes <> rest) × Carries cs rest))

pub read_all-Carries :
    (chunks : List Chunk) (bytes : String) → Carries chunks bytes → read_all chunks ≡ bytes
unfolding read_all
read_all-Carries [] bytes h = absurd h
read_all-Carries (c ∷ cs) bytes (inl (q, e)) = rw q e
read_all-Carries (c ∷ cs) bytes (inr (q, (rest, e, h))) = rw (q, read_all-Carries cs rest h) (sym e)

-- What the S3 manual says of objects that are put and read again.
pub record KeepsObjects {W : Type 0} (client : S3 W) : Type 0 where
  pub holds : W → String → String → Option String
  pub kept :
      (bucket key bytes : String) (w : W)
      → (w' : W) × (client.put_object bucket key bytes w ≡ (ok tt, w'))
        × (holds w' bucket key ≡ some bytes)
  pub delivered :
      (bucket key bytes : String) (w : W)
      → holds w bucket key ≡ some bytes
      → (chunks : List Chunk) × (client.get_object bucket key w ≡ (ok chunks, w))
        × Carries chunks bytes
