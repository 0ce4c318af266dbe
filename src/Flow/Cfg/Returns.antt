-- ===== src/Flow/Cfg/Returns.antt =====
-- A run of a method of the graph that returns, with what is known of its result.
use aderyn.Prelude.{Option, none, some, ◌≡◌}
use aderyn.Flow.Cfg.{Cfg, M, ◌>>=◌, pure}

pub data Returns {A : Type 0} (Q : A → Cfg → Type 0) : Option (A × Cfg) → Type 0 where
  returns : {a : A} {g : Cfg} → Q a g → Returns Q (some (a, g))

bind_run :
    {A B : Type 0} {P : A → Cfg → Type 0} {Q : B → Cfg → Type 0} (f : A → M B)
    (o : Option (A × Cfg))
    → Returns P o
    → ((a : A) (h : Cfg) → P a h → Returns Q (f a h))
    → Returns Q (elim o [ none ↦ none | some (a, h) ↦ f a h ])
bind_run f o (returns {a} {g} p) k = k a g p

-- The rule of a step and what follows it.
pub Returns-bind :
    {A B : Type 0} {P : A → Cfg → Type 0} {Q : B → Cfg → Type 0} (m : M A) (f : A → M B) (g : Cfg)
    → Returns P (m g)
    → ((a : A) (h : Cfg) → P a h → Returns Q (f a h))
    → Returns Q ((m >>= f) g)
unfolding ◌>>=◌
Returns-bind m f g r k = bind_run f (m g) r k

-- The same where the result of the step is known.
pub Returns-step :
    {A B : Type 0} {Q : B → Cfg → Type 0} (m : M A) (f : A → M B) (g : Cfg) (a : A) (h : Cfg)
    → m g ≡ some (a, h)
    → Returns Q (f a h)
    → Returns Q ((m >>= f) g)
unfolding ◌>>=◌
Returns-step m f g a h e r = rw (e, ◌>>=◌) r

pub Returns-pure :
    {A : Type 0} {Q : A → Cfg → Type 0} (a : A) (g : Cfg) → Q a g → Returns Q (pure a g)
unfolding pure
Returns-pure a g q = returns q

-- A weaker statement of the result.
pub Returns-weaken :
    {A : Type 0} {P Q : A → Cfg → Type 0}
    → ((a : A) (g : Cfg) → P a g → Q a g)
    → (o : Option (A × Cfg)) → Returns P o
    → Returns Q o
Returns-weaken f o (returns {a} {g} p) = returns (f a g p)
