-- ===== src/Gateway/Uuid.antt =====
-- internal/grpc/gateway.go, genUUID (internal/api/server.go has the same function).
use Prim.Native.Nat.{◌/◌, ◌%◌, bit_and, bit_or, compare, Ordering}
use Prim.Native.String.{◌++◌ as ◌<>◌}
use text.Mathlib.TextLemmas.{nil-append, cons-append}
use state_graph.Prelude.{String, ℕ, zero, suc, List, [], ◌∷◌, arith}
use state_graph.Exec.{Exec, pure, ◌>>=◌}
use state_graph.Store.Memory.Keys.{IsColonFree}

abbrev pub hex_digits : String
hex_digits = "0123456789abcdef"

abbrev pub char_at : ℕ → String → String
char_at n String.[] = String.[]
char_at zero (String.◌∷◌ c s) = String.◌∷◌ c String.[]
char_at (suc n) (String.◌∷◌ c s) = char_at n s

-- the digits of fmt.Sprintf("%x") for one byte
abbrev pub hex_byte : ℕ → String
hex_byte n = char_at (n / 16 % 16) hex_digits <> char_at (n % 16) hex_digits

-- the digits of b[from:to]
abbrev pub hex_bytes : (ℕ → ℕ) → List ℕ → String
hex_bytes b [] = String.[]
hex_bytes b (i ∷ is) = hex_byte (b i) <> hex_bytes b is

-- b[6] = (b[6] & 0x0f) | 0x40 and b[8] = (b[8] & 0x3f) | 0x80
abbrev pub mark_version : (ℕ → ℕ) → ℕ → ℕ
mark_version b i = elim (compare i 6) [
  | Ordering.eq ↦ bit_or (bit_and (b 6) 15) 64
  | _ ↦ elim (compare i 8) [ Ordering.eq ↦ bit_or (bit_and (b 8) 63) 128 | _ ↦ b i ]
]

unfoldable pub format_uuid : (ℕ → ℕ) → String
format_uuid b =
    hex_bytes b (0 ∷ 1 ∷ 2 ∷ 3 ∷ [])
    <> ("-"
        <> (hex_bytes b (4 ∷ 5 ∷ [])
            <> ("-"
                <> (hex_bytes b (6 ∷ 7 ∷ [])
                    <> ("-"
                        <> (hex_bytes b (8 ∷ 9 ∷ [])
                            <> ("-" <> hex_bytes b (10 ∷ 11 ∷ 12 ∷ 13 ∷ 14 ∷ 15 ∷ []))))))))

-- `rand_read` is rand.Read on 16 bytes, by position.
unfoldable pub gen_uuid : {W : Type 0} → Exec W (ℕ → ℕ) → Exec W String
gen_uuid rand_read = do b ← rand_read; pure (format_uuid (mark_version b))

append-IsColonFree : (s t : String) → IsColonFree s → IsColonFree t → IsColonFree (s <> t)
append-IsColonFree String.[] t p q = rw (nil-append) q
append-IsColonFree (String.◌∷◌ c s) t p q = rw (cons-append) (p.0, append-IsColonFree s t p.1 q)

char_at-IsColonFree : (n : ℕ) (s : String) → IsColonFree s → IsColonFree (char_at n s)
char_at-IsColonFree n String.[] p = tt
char_at-IsColonFree zero (String.◌∷◌ c s) p = (p.0, tt)
char_at-IsColonFree (suc n) (String.◌∷◌ c s) p = char_at-IsColonFree n s p.1

digits-IsColonFree : IsColonFree hex_digits
digits-IsColonFree = (
  (λ h. omega (arith, h)),
  (
    (λ h. omega (arith, h)),
    (
      (λ h. omega (arith, h)),
      (
        (λ h. omega (arith, h)),
        (
          (λ h. omega (arith, h)),
          (
            (λ h. omega (arith, h)),
            (
              (λ h. omega (arith, h)),
              (
                (λ h. omega (arith, h)),
                (
                  (λ h. omega (arith, h)),
                  (
                    (λ h. omega (arith, h)),
                    (
                      (λ h. omega (arith, h)),
                      (
                        (λ h. omega (arith, h)),
                        (
                          (λ h. omega (arith, h)),
                          (
                            (λ h. omega (arith, h)),
                            ((λ h. omega (arith, h)), ((λ h. omega (arith, h)), (tt))),
                          ),
                        ),
                      ),
                    ),
                  ),
                ),
              ),
            ),
          ),
        ),
      ),
    ),
  ),
)

hex_bytes-IsColonFree : (b : ℕ → ℕ) (is : List ℕ) → IsColonFree (hex_bytes b is)
hex_bytes-IsColonFree b [] = tt
hex_bytes-IsColonFree b (i ∷ is) =
    append-IsColonFree _ _
      (append-IsColonFree _ _ (char_at-IsColonFree (b i / 16 % 16) hex_digits digits-IsColonFree)
        (char_at-IsColonFree (b i % 16) hex_digits digits-IsColonFree))
      (hex_bytes-IsColonFree b is)

dashed-IsColonFree :
    (b : ℕ → ℕ) (is : List ℕ) (t : String)
    → IsColonFree t
    → IsColonFree (hex_bytes b is <> ("-" <> t))
dashed-IsColonFree b is t p =
    append-IsColonFree _ _ (hex_bytes-IsColonFree b is)
      (append-IsColonFree "-" t ((λ h. omega (arith, h)), tt) p)

-- An execution id holds no colon, whatever the random bytes are.
format_uuid-IsColonFree : (b : ℕ → ℕ) → IsColonFree (format_uuid b)
unfolding format_uuid
format_uuid-IsColonFree b = dashed-IsColonFree b (0 ∷ 1 ∷ 2 ∷ 3 ∷ []) _ (
    dashed-IsColonFree b (4 ∷ 5 ∷ []) _ (
      dashed-IsColonFree b (6 ∷ 7 ∷ []) _ (
        dashed-IsColonFree b (8 ∷ 9 ∷ []) _
          (hex_bytes-IsColonFree b (10 ∷ 11 ∷ 12 ∷ 13 ∷ 14 ∷ 15 ∷ [])))))
