-- ===== src/Standings/Orders.antt =====
-- Strict weak orders, as the tests that sort.Slice takes.
use ai_arena.Prelude.{
  ℕ, String, Bool, true, false, ◌≡◌, refl, ◌⊎◌, inl, inr, arith, ltb, if◌then◌else◌, text_lt,
}

pub record WeakOrder {ℓ} (A : Type ℓ) : Type ℓ where
  pub lt : A → A → Bool
  pub asym : (a b : A) → lt a b ≡ true → lt b a ≡ false
  pub cotrans : (a b c : A) → lt a c ≡ true → (lt a b ≡ true) ⊎ (lt b c ≡ true)

pub ltb-asym : (a b : ℕ) → ltb a b ≡ true → ltb b a ≡ false
ltb-asym a b h = ground arith

pub ltb-cotrans : (a b c : ℕ) → ltb a c ≡ true → (ltb a b ≡ true) ⊎ (ltb b c ≡ true)
ltb-cotrans a b c h = ground arith

pub ltb-cotrans_flip : (a b c : ℕ) → ltb c a ≡ true → (ltb b a ≡ true) ⊎ (ltb c b ≡ true)
ltb-cotrans_flip a b c h = ground arith

-- The smaller, or the larger, number first.
abbrev pub ascending : WeakOrder ℕ
ascending = record { lt = λ a b. ltb a b; asym = ltb-asym; cotrans = ltb-cotrans }

abbrev pub descending : WeakOrder ℕ
descending = record { lt = λ a b. ltb b a; asym = λ a b. ltb-asym b a; cotrans = ltb-cotrans_flip }

pub text_lt-asym : (s t : String) → text_lt s t ≡ true → text_lt t s ≡ false
unfolding text_lt
text_lt-asym String.[] String.[] h = refl
text_lt-asym String.[] (String.◌∷◌ d t) h = refl
text_lt-asym (String.◌∷◌ c s) String.[] h = cc
text_lt-asym (String.◌∷◌ c s) (String.◌∷◌ d t) h = ground (arith, text_lt-asym s t)

pub text_lt-cotrans :
    (s t u : String) → text_lt s u ≡ true → (text_lt s t ≡ true) ⊎ (text_lt t u ≡ true)
unfolding text_lt
text_lt-cotrans String.[] String.[] u h = inr h
text_lt-cotrans String.[] (String.◌∷◌ d t) u h = inl refl
text_lt-cotrans (String.◌∷◌ c s) t String.[] h = cc
text_lt-cotrans (String.◌∷◌ c s) String.[] (String.◌∷◌ e u) h = inr refl
text_lt-cotrans (String.◌∷◌ c s) (String.◌∷◌ d t) (String.◌∷◌ e u) h =
    ground (arith, text_lt-cotrans s t u)

abbrev pub by_text : WeakOrder String
by_text = record { lt = text_lt; asym = text_lt-asym; cotrans = text_lt-cotrans }

module _ {ℓ} {A : Type ℓ} where
  -- The order of a key.
  abbrev pub on {κ} : {K : Type κ} → (A → K) → WeakOrder K → WeakOrder A
  on f o = record {
    lt = λ a b. o.lt (f a) (f b);
    asym = λ a b. o.asym (f a) (f b);
    cotrans = λ a b c. o.cotrans (f a) (f b) (f c);
  }

  abbrev pub lex_lt : WeakOrder A → WeakOrder A → A → A → Bool
  lex_lt o p a b = if o.lt a b then true else if o.lt b a then false else p.lt a b

  pub lex-asym : (o p : WeakOrder A) (a b : A) → lex_lt o p a b ≡ true → lex_lt o p b a ≡ false
  lex-asym o p a b h = ground (arith, o.asym a b, o.asym b a, p.asym a b)

  pub lex-cotrans :
      (o p : WeakOrder A) (a b c : A)
      → lex_lt o p a c ≡ true
      → (lex_lt o p a b ≡ true) ⊎ (lex_lt o p b c ≡ true)
  lex-cotrans o p a b c h = ground (
    arith,
    o.cotrans a b c,
    o.asym a b,
    o.asym b c,
    o.asym b a,
    o.asym c b,
    o.cotrans b c a,
    o.cotrans c a b,
    p.cotrans a b c,
  )

  -- The first order, and the second where the first leaves a tie.
  abbrev pub lex : WeakOrder A → WeakOrder A → WeakOrder A
  lex o p = record { lt = lex_lt o p; asym = lex-asym o p; cotrans = lex-cotrans o p }

  pub lt_irrefl : (o : WeakOrder A) (a : A) → o.lt a a ≡ false
  lt_irrefl o a = ground (arith, o.asym a a)

pub lex-false {ℓ} :
    {A : Type ℓ} (o p : WeakOrder A) (a b : A) → (lex o p).lt a b ≡ false → o.lt a b ≡ false
lex-false o p a b h = ground arith
