-- ===== src/Platform/RateLimit/Budget.antt =====
-- src/platform/http/rate-limit.ts: what a subject is allowed in one window, whoever else asks.
use package.text.Mathlib.TextEquality.{eq_iff}
use wasla_core.Base.{
  ℕ, ◌+◌, ◌-◌, ◌≤◌, Bool, true, false, ◌≡◌, refl, sym, ap, subst, ◌∙◌, List, [], ◌∷◌, arith,
  if◌then◌else◌, ◌&&◌, Bool-cases, inl, inr,
}
use wasla_core.Platform.RateLimit.{
  RateLimitPolicy, RateLimitKey, Counter, same_window, same_kind, same_class, SubjectKind,
  RateClass, hits_of, set_hits, hit, check, is_allowed, window_start_of,
}

pub record Request : Type 0 where
  pub key : RateLimitKey
  pub now : ℕ

-- How many of the requests a key made in a window and was allowed, as the limiter answers them in turn.
unfoldable pub allowed_in : RateLimitPolicy → RateLimitKey → ℕ → List Request → List Counter → ℕ
unfolding check same_window
allowed_in policy k start [] windows = 0
allowed_in policy k start (r ∷ rs) windows =
    let (decision, windows') = check policy r.key r.now windows in
    let rest = allowed_in policy k start rs windows' in
    if same_window r.key (window_start_of policy r.now) k start && is_allowed decision
    then rest + 1
    else rest

same_kind-eq : (a b : SubjectKind) → same_kind a b ≡ true → a ≡ b
same_kind-eq a b h = ground arith

same_class-eq : (a b : RateClass) → same_class a b ≡ true → a ≡ b
same_class-eq a b h = ground arith

same_window-eq :
    (k k' : RateLimitKey) (start start' : ℕ)
    → same_window k start k' start' ≡ true
    → (k ≡ k') × (start ≡ start')
unfolding same_window
same_window-eq k k' start start' h = ground (
  arith,
  same_kind-eq k.subject_kind k'.subject_kind,
  same_class-eq k.rate_class k'.rate_class,
  eq_iff k.subject_hash k'.subject_hash,
)

if-if : (b : Bool) (x y z : ℕ) → (if b then x else z) ≡ (if b then x else if b then y else z)
if-if true x y z = refl
if-if false x y z = refl

if-swap :
    (a b : Bool) (x y z : ℕ)
    → (a ≡ true → b ≡ false)
    → (if b then y else if a then x else z) ≡ (if a then x else if b then y else z)
if-swap true true x y z h = ground (arith, h refl)
if-swap true false x y z h = refl
if-swap false true x y z h = refl
if-swap false false x y z h = refl

-- The counter of a request's window is set, and no other changes.
hits_of-set_hits :
    (k k' : RateLimitKey) (start start' hits now : ℕ) (cs : List Counter)
    → hits_of k' start' (set_hits k start hits now cs)
      ≡ (if same_window k start k' start' then hits else hits_of k' start' cs)
unfolding hits_of set_hits
hits_of-set_hits k k' start start' hits now [] = ground arith
hits_of-set_hits k k' start start' hits now (c ∷ cs) =
    let new : Counter = record { key = k; window_start = start; hits = hits; updated_at = now } in
    let mine = same_window k start k' start' in
    elim (Bool-cases (same_window c.key c.window_start k start)) [
      | inl e ↦
          let (key, window) = same_window-eq c.key k c.window_start start e in
          let same =
            ap (λ x. same_window x c.window_start k' start') key
            ∙ ap (λ x. same_window k x k' start') window in
          subst
            (λ b. hits_of k' start' (if b then new ∷ cs else c ∷ set_hits k start hits now cs) ≡ (
              if mine
              then hits
              else if same_window c.key c.window_start k' start'
              then c.hits
              else hits_of k' start' cs))
            (sym e)
            (if-if mine hits c.hits (hits_of k' start' cs)
              ∙ ap (λ b. if mine then hits else if b then c.hits else hits_of k' start' cs)
                  (sym same))
      | inr e ↦
          subst
            (λ b. hits_of k' start' (if b then new ∷ cs else c ∷ set_hits k start hits now cs) ≡ (
              if mine
              then hits
              else if same_window c.key c.window_start k' start'
              then c.hits
              else hits_of k' start' cs))
            (sym e)
            (ap (λ x. if same_window c.key c.window_start k' start' then c.hits else x)
                (hits_of-set_hits k k' start start' hits now cs)
              ∙ if-swap mine (same_window c.key c.window_start k' start') hits c.hits
                  (hits_of k' start' cs)
                  (λ m.
                    let (key, window) = same_window-eq k k' start start' m in
                    ap (λ x. same_window c.key c.window_start x start') (sym key)
                    ∙ ap (λ x. same_window c.key c.window_start k x) (sym window)
                    ∙ e))
    ]

-- Whatever requests come, of whichever subjects, classes and instants, a subject is allowed no more
-- requests of a class in one window than the limit leaves after those that the window has counted.
pub allowed_in_le :
    (policy : RateLimitPolicy) (k : RateLimitKey) (start : ℕ) (rs : List Request)
    (windows : List Counter)
    → allowed_in policy k start rs windows ≤ policy.limits k.rate_class - hits_of k start windows
unfolding allowed_in check hit
allowed_in_le policy k start [] windows = omega arith
allowed_in_le policy k start (r ∷ rs) windows =
    let begin = window_start_of policy r.now in
    let counted =
      hits_of-set_hits r.key k begin start (hits_of r.key begin windows + 1) r.now windows in
    let rest =
      allowed_in_le policy k start rs
        (set_hits r.key begin (hits_of r.key begin windows + 1) r.now windows) in
    elim (Bool-cases (same_window r.key begin k start)) [
      | inl e ↦
          let (key, window) = same_window-eq r.key k begin start e in
          let same_limit = ap (λ x. policy.limits x.rate_class) key in
          let same_hits =
            ap (λ x. hits_of x begin windows) key ∙ ap (λ x. hits_of k x windows) window in
          ground (arith, e, counted, rest, same_limit, same_hits)
      | inr e ↦ ground (arith, e, counted, rest)
    ]
