-- ===== src/Kubernetes/Names.antt =====
-- The names of jobs are labels that Kubernetes accepts.
use Prim.Native.Char.{Char}
use state_graph.Prelude.{
  String, ℕ, zero, suc, ◌≤◌, ◌≡◌, refl, Bool, true, false, ◌&&◌, ◌||◌, arith, if◌then◌else◌,
}
use state_graph.Kubernetes.{
  Unicode, hyphen, is_alphanum, is_hyphen, cut, join, strip_hyphens, is_empty, trim_right, squeeze,
  to_kebab, job_name,
}
use state_graph.Kubernetes.Manifests.{svc_name}

abbrev pub size : String → ℕ
size String.[] = 0
size (String.◌∷◌ _ s) = suc (size s)

-- only [a-z0-9-]
abbrev pub IsLabelText : String → Type 0
IsLabelText String.[] = Unit
IsLabelText (String.◌∷◌ c s) = ((is_alphanum c || is_hyphen c) ≡ true) × IsLabelText s

-- the last character is no hyphen
abbrev pub EndsPlain : String → Type 0
EndsPlain String.[] = Unit
EndsPlain (String.◌∷◌ c String.[]) = is_hyphen c ≡ false
EndsPlain (String.◌∷◌ c (String.◌∷◌ d s)) = EndsPlain (String.◌∷◌ d s)

-- an RFC 1123 label of at most 63 characters, with its first character at hand
pub record IsDnsLabel (s : String) : Type 0 where
  pub short : size s ≤ 63
  pub text : IsLabelText s
  pub first : Char
  pub rest : String
  pub starts : s ≡ String.◌∷◌ first rest
  pub first_plain : is_alphanum first ≡ true
  pub ends : EndsPlain s

size-cut : (n : ℕ) (s : String) → size (cut n s) ≤ n
unfolding cut
size-cut zero s = omega arith
size-cut (suc n) String.[] = omega arith
size-cut (suc n) (String.◌∷◌ c s) = omega (arith, size-cut n s)

cut-IsLabelText : (n : ℕ) (s : String) → IsLabelText s → IsLabelText (cut n s)
unfolding cut
cut-IsLabelText zero s h = tt
cut-IsLabelText (suc n) String.[] h = tt
cut-IsLabelText (suc n) (String.◌∷◌ c s) h = (h.0, cut-IsLabelText n s h.1)

join-IsLabelText : (s t : String) → IsLabelText s → IsLabelText t → IsLabelText (join s t)
unfolding join
join-IsLabelText String.[] t hs ht = ht
join-IsLabelText (String.◌∷◌ c s) t hs ht = (hs.0, join-IsLabelText s t hs.1 ht)

strip_hyphens-IsLabelText : (s : String) → IsLabelText s → IsLabelText (strip_hyphens s)
unfolding strip_hyphens
strip_hyphens-IsLabelText String.[] h = tt
strip_hyphens-IsLabelText (String.◌∷◌ c s) h =
    strip_one (is_hyphen c) (strip_hyphens-IsLabelText s h.1)
  where
    strip_one :
        (b : Bool)
        → IsLabelText (strip_hyphens s)
        → IsLabelText (if b then strip_hyphens s else String.◌∷◌ c (strip_hyphens s))
    strip_one true k = k
    strip_one false k = (h.0, k)

squeeze-IsLabelText : (b : Bool) (s : String) → IsLabelText (squeeze b s)
unfolding squeeze
squeeze-IsLabelText b String.[] = tt
squeeze-IsLabelText b (String.◌∷◌ c s) =
    squeeze_one (is_alphanum c) b refl (squeeze-IsLabelText false s) (squeeze-IsLabelText true s)
  where
    squeeze_one :
        (p b : Bool)
        → is_alphanum c ≡ p
        → IsLabelText (squeeze false s)
        → IsLabelText (squeeze true s)
        → IsLabelText (
            if p
            then String.◌∷◌ c (squeeze false s)
            else if b
            then squeeze true s
            else String.◌∷◌ hyphen (squeeze true s))
    squeeze_one true b e k l = (rw e refl, k)
    squeeze_one false true e k l = l
    squeeze_one false false e k l = (refl, l)

trim_right-IsLabelText : (s : String) → IsLabelText s → IsLabelText (trim_right s)
unfolding trim_right
trim_right-IsLabelText String.[] h = tt
trim_right-IsLabelText (String.◌∷◌ c s) h =
    trim_one (is_hyphen c && is_empty (trim_right s)) (trim_right-IsLabelText s h.1)
  where
    trim_one :
        (b : Bool)
        → IsLabelText (trim_right s)
        → IsLabelText (if b then String.[] else String.◌∷◌ c (trim_right s))
    trim_one true k = tt
    trim_one false k = (h.0, k)

size-trim_right : (s : String) → size (trim_right s) ≤ size s
unfolding trim_right
size-trim_right String.[] = omega arith
size-trim_right (String.◌∷◌ c s) = ground (arith, size-trim_right s)

trim_right-EndsPlain : (s : String) → EndsPlain (trim_right s)
unfolding trim_right
trim_right-EndsPlain String.[] = tt
trim_right-EndsPlain (String.◌∷◌ c s) =
    trim_end (is_hyphen c) (trim_right s) refl (trim_right-EndsPlain s)
  where
    trim_end :
        (b : Bool) (rest : String)
        → is_hyphen c ≡ b
        → EndsPlain rest
        → EndsPlain (if b && is_empty rest then String.[] else String.◌∷◌ c rest)
    trim_end true String.[] e h = tt
    trim_end true (String.◌∷◌ d s) e h = h
    trim_end false String.[] e h = e
    trim_end false (String.◌∷◌ d s) e h = h

-- what is cut to 63 characters behind "kflow-"
kflow-IsDnsLabel :
    (tail : String) → IsLabelText tail → IsDnsLabel (trim_right (cut 63 (join "kflow-" tail)))
unfolding join cut trim_right
kflow-IsDnsLabel tail h =
    let full = join "kflow-" tail in
    let full-text =
      join-IsLabelText "kflow-" tail (refl, (refl, (refl, (refl, (refl, (refl, tt)))))) h in
    record {
      short = omega (arith, size-trim_right (cut 63 full), size-cut 63 full);
      text = trim_right-IsLabelText (cut 63 full) (cut-IsLabelText 63 full full-text);
      first = "k";
      rest = trim_right (cut 62 (join "flow-" tail));
      starts = refl;
      first_plain = refl;
      ends = trim_right-EndsPlain (cut 63 full);
    }

-- The name of a job is a DNS label of at most 63 characters, whatever the state is called, if the
-- execution id has only lower-case letters, digits and hyphens, as a UUID has.
pub job_name-IsDnsLabel :
    (u : Unicode) (exec_id state_name : String)
    → IsLabelText exec_id
    → IsDnsLabel (job_name u exec_id state_name)
unfolding job_name to_kebab
job_name-IsDnsLabel u exec_id state_name h = kflow-IsDnsLabel _ (
    join-IsLabelText _ _
      (cut-IsLabelText 16 _ (strip_hyphens-IsLabelText _ (cut-IsLabelText 16 exec_id h)))
      (join-IsLabelText "-" _ (refl, tt) (squeeze-IsLabelText false _)))

-- The name of a deployment is a DNS label of at most 63 characters, whatever the service is called.
svc_name-IsDnsLabel : (u : Unicode) (service_name : String) → IsDnsLabel (svc_name u service_name)
unfolding svc_name to_kebab join
svc_name-IsDnsLabel u service_name =
    kflow-IsDnsLabel _
      (join-IsLabelText "svc-" _ (refl, (refl, (refl, (refl, tt)))) (squeeze-IsLabelText false _))
