-- ===== src/Kubernetes.antt =====
-- internal/k8s/job.go, internal/engine/k8s_executor.go and internal/controller/service_dispatcher.go:
-- states and services that run as jobs of a cluster. A string is a list of characters: execution ids
-- are ASCII, where the bytes that JobName counts are characters.
pub mod Names
pub mod Jobs
pub mod Dispatch
pub mod Manifests
pub mod Deployments
pub mod Rollout
pub mod Cleanup
pub mod Client
use Prim.Native.Char.{Char, code}
use state_graph.Prelude.{
  String, ℕ, zero, suc, Bool, true, false, ◌&&◌, ◌||◌, not, leb, Option, none, some, if◌then◌else◌,
}

-- What JobName uses of the package `unicode`.
pub record Unicode : Type 0 where
  pub is_upper : Char → Bool
  pub is_lower : Char → Bool
  pub is_digit : Char → Bool
  pub is_letter : Char → Bool
  pub to_lower : Char → Char

abbrev pub hyphen : Char
hyphen = "-"

abbrev pub between : ℕ → Char → ℕ → Bool
between a c b = leb a (code c) && leb (code c) b

-- [a-z0-9]
abbrev pub is_alphanum : Char → Bool
is_alphanum c = between 97 c 122 || between 48 c 57

abbrev pub is_hyphen : Char → Bool
is_hyphen c = between 45 c 45

unfoldable pub cut : ℕ → String → String
cut zero s = String.[]
cut (suc n) String.[] = String.[]
cut (suc n) (String.◌∷◌ c s) = String.◌∷◌ c (cut n s)

unfoldable pub join : String → String → String
join String.[] t = t
join (String.◌∷◌ c s) t = String.◌∷◌ c (join s t)

-- strings.ReplaceAll(s, "-", "")
unfoldable pub strip_hyphens : String → String
strip_hyphens String.[] = String.[]
strip_hyphens (String.◌∷◌ c s) =
    if is_hyphen c then strip_hyphens s else String.◌∷◌ c (strip_hyphens s)

abbrev pub is_empty : String → Bool
is_empty String.[] = true
is_empty (String.◌∷◌ _ _) = false

-- strings.TrimRight(s, "-")
unfoldable pub trim_right : String → String
trim_right String.[] = String.[]
trim_right (String.◌∷◌ c s) =
    let rest = trim_right s in if is_hyphen c && is_empty rest then String.[] else String.◌∷◌ c rest

-- nonAlphanumRe.ReplaceAllString(s, "-"): each run of other characters becomes one hyphen
unfoldable pub squeeze : Bool → String → String
squeeze in_run String.[] = String.[]
squeeze in_run (String.◌∷◌ c s) =
    if is_alphanum c
    then String.◌∷◌ c (squeeze false s)
    else if in_run
    then squeeze true s
    else String.◌∷◌ hyphen (squeeze true s)

module _ (u : Unicode) where
  -- IsLower of the character that follows, which is 0 at the end
  abbrev pub lower_follows : String → Bool
  lower_follows String.[] = false
  lower_follows (String.◌∷◌ c _) = u.is_lower c

  abbrev pub starts_word : Option Char → String → Bool
  starts_word none s = false
  starts_word (some prev) s =
      u.is_lower prev || u.is_digit prev || (u.is_upper prev && lower_follows s)

  -- the loop of toKebab, from the character after `prev`
  unfoldable pub kebab_loop : Option Char → String → String
  kebab_loop prev String.[] = String.[]
  kebab_loop prev (String.◌∷◌ c s) =
      let rest = kebab_loop (some c) s in
      if u.is_upper c
      then (if starts_word prev s
          then String.◌∷◌ hyphen (String.◌∷◌ (u.to_lower c) rest)
          else String.◌∷◌ (u.to_lower c) rest)
      else if u.is_letter c || u.is_digit c
      then String.◌∷◌ c rest
      else String.◌∷◌ hyphen rest

  unfoldable pub to_kebab : String → String
  to_kebab s = squeeze false (kebab_loop none s)

  unfoldable pub job_name : String → String → String
  job_name exec_id state_name = trim_right (
      cut 63 (
        join "kflow-"
          (join (cut 16 (strip_hyphens (cut 16 exec_id))) (join "-" (to_kebab state_name)))))
