-- ===== src/Wat/Encode/Framed.antt =====
-- Rules for actions that push a frame's label and pop it at their end, and for actions whose value
-- has a property.
use lua2wasm.Prelude.{
  Bool, true, false, Bytes, List, [], ◌∷◌, ◌++◌, Option, none, some, ◌≡◌, refl, ap, ◌∙◌,
}
use lua2wasm.Wat.Encode.{
  Ctx, Encoder, Refusal, Out, done, failed, null, overread, stuck, Action, pure, fail, branch,
  on_option, continue, ◌>>=◌, ◌>>◌,
}
use lua2wasm.Wat.Encode.Control.{fc_push_label, fc_pop_label, drop_last}
use lua2wasm.Wat.Encode.Grows.{Grows, Grows-refl, Grows-trans, Returns, Returns-trans, Good}

-- From a state with one label more than `ls` the action ends with the labels `ls`.
pub record Pops {A : Type 0} (c : Ctx) (m : Action A) : Type 0 where
  pub at :
      (s : Encoder) (ls : List (Option Bytes)) (l : Option Bytes)
      → s.labels ≡ ls ++ l ∷ []
      → Returns c (record s { labels = ls }) (m s)

drop_last-snoc : {A : Type 0} (xs : List A) (x : A) → drop_last (xs ++ x ∷ []) ≡ xs
unfolding drop_last
drop_last-snoc [] x = refl
drop_last-snoc (y ∷ []) x = refl
drop_last-snoc (y ∷ z ∷ xs) x = ap (λ t. y ∷ t) (drop_last-snoc (z ∷ xs) x)

Grows-below :
    (s t : Encoder) (ls : List (Option Bytes))
    → Grows s t
    → Grows (record s { labels = ls }) (record t { labels = ls })
Grows-below s t ls g = record {
  labels_kept = refl;
  new_sigs = g.new_sigs;
  sigs_grow = g.sigs_grow;
  new_bytes = g.new_bytes;
  bytes_grow = g.bytes_grow;
}

-- The property of the value, where the action returns.
abbrev pub Yields : {A : Type 0} → Ctx → (A → Type 0) → Encoder → Out A → Type 0
Yields c P s (done a t) = Grows s t × P a
Yields c P s (failed why) = Unit
Yields c P s null = ⊥
Yields c P s overread = Returns {A = Unit {0}} c s overread
Yields c P s stuck = ⊥

pub record Gives {A : Type 0} (c : Ctx) (P : A → Type 0) (m : Action A) : Type 0 where
  pub at : (s : Encoder) → Yields c P s (m s)

Yields-trans :
    {A : Type 0} (c : Ctx) (P : A → Type 0) (s t : Encoder) (r : Out A)
    → Grows s t
    → Yields c P t r
    → Yields c P s r
Yields-trans c P s t (done a u) g (h, p) = (Grows-trans s t u g h, p)
Yields-trans c P s t (failed why) g h = h
Yields-trans c P s t null g h = h
Yields-trans c P s t overread g h = h
Yields-trans c P s t stuck g h = h

Gives-Good_out :
    {A : Type 0} (c : Ctx) (P : A → Type 0) (s : Encoder) (r : Out A)
    → Yields c P s r
    → Returns c s r
Gives-Good_out c P s (done a t) (g, p) = g
Gives-Good_out c P s (failed why) g = g
Gives-Good_out c P s null g = g
Gives-Good_out c P s overread g = g
Gives-Good_out c P s stuck g = g

Good-Gives_out :
    {A : Type 0} (c : Ctx) (s : Encoder) (r : Out A) → Returns c s r → Yields c (λ _. Unit {0}) s r
Good-Gives_out c s (done a t) g = (g, tt)
Good-Gives_out c s (failed why) g = g
Good-Gives_out c s null g = g
Good-Gives_out c s overread g = g
Good-Gives_out c s stuck g = g

Yields-weaken :
    {A : Type 0} (c : Ctx) (P Q : A → Type 0) (s : Encoder) (r : Out A)
    → Yields c P s r
    → ((a : A) → P a → Q a)
    → Yields c Q s r
Yields-weaken c P Q s (done a t) (g, p) h = (g, h a p)
Yields-weaken c P Q s (failed why) g h = g
Yields-weaken c P Q s null g h = g
Yields-weaken c P Q s overread g h = g
Yields-weaken c P Q s stuck g h = g

module _ {c : Ctx} where
  pub Pops-pop : {A : Type 0} (k : Action A) → Good c k → Pops c (fc_pop_label >> k)
  unfolding ◌>>=◌ fc_pop_label
  Pops-pop k g = record {
    at = λ s ls l e. rw (e) (rw (drop_last-snoc ls l) (g.at (record s { labels = ls })));
  }

  Pops-continue :
      {A B : Type 0} (s : Encoder) (ls : List (Option Bytes)) (l : Option Bytes) (r : Out A)
      (f : A → Action B)
      → s.labels ≡ ls ++ l ∷ []
      → Returns c s r
      → ((a : A) → Pops c (f a))
      → Returns c (record s { labels = ls }) (continue r f)
  Pops-continue s ls l (done a t) f e g h =
      Returns-trans c (record s { labels = ls }) (record t { labels = ls }) (f a t)
        (Grows-below s t ls g) ((h a).at t ls l (g.labels_kept ∙ e))
  Pops-continue s ls l (failed why) f e g h = g
  Pops-continue s ls l null f e g h = g
  Pops-continue s ls l overread f e g h = g
  Pops-continue s ls l stuck f e g h = g

  pub Pops-bind :
      {A B : Type 0} (m : Action A) (f : A → Action B)
      → Good c m
      → ((a : A) → Pops c (f a))
      → Pops c (m >>= f)
  unfolding ◌>>=◌
  Pops-bind m f g h = record { at = λ s ls l e. Pops-continue s ls l (m s) f e (g.at s) h }

  pub Pops-then :
      {A B : Type 0} (m : Action A) (k : Action B) → Good c m → Pops c k → Pops c (m >> k)
  Pops-then m k g h = Pops-bind m (λ _. k) g (λ _. h)

  pub Good-push :
      {A : Type 0} (l : Option Bytes) (k : Action A) → Pops c k → Good c (fc_push_label l >> k)
  unfolding ◌>>=◌ fc_push_label
  Good-push l k g = record {
    at = λ s. g.at (record s { labels = s.labels ++ l ∷ [] }) s.labels l refl;
  }

  pub Gives-pure : {A : Type 0} {P : A → Type 0} (a : A) → P a → Gives c P (pure a)
  unfolding pure
  Gives-pure a p = record { at = λ s. (Grows-refl s, p) }

  pub Gives-fail : {A : Type 0} {P : A → Type 0} (why : Refusal) → Gives c P (fail why)
  unfolding fail
  Gives-fail why = record { at = λ s. tt }

  pub Gives-on_option :
      {A B : Type 0} {P : B → Type 0} (o : Option A) (m : Action B) (f : A → Action B)
      → Gives c P m
      → ((a : A) → Gives c P (f a))
      → Gives c P (on_option o m f)
  unfolding on_option
  Gives-on_option none m f g h = g
  Gives-on_option (some a) m f g h = h a

  Gives-continue :
      {A B : Type 0} {P : A → Type 0} {Q : B → Type 0} (s : Encoder) (r : Out A) (f : A → Action B)
      → Yields c P s r
      → ((a : A) → P a → Gives c Q (f a))
      → Yields c Q s (continue r f)
  Gives-continue {Q = Q} s (done a t) f (g, p) h = Yields-trans c Q s t (f a t) g ((h a p).at t)
  Gives-continue s (failed why) f g h = g
  Gives-continue s null f g h = g
  Gives-continue s overread f g h = g
  Gives-continue s stuck f g h = g

  pub Gives-bind :
      {A B : Type 0} {P : A → Type 0} {Q : B → Type 0} (m : Action A) (f : A → Action B)
      → Gives c P m
      → ((a : A) → P a → Gives c Q (f a))
      → Gives c Q (m >>= f)
  unfolding ◌>>=◌
  Gives-bind m f g h = record { at = λ s. Gives-continue s (m s) f (g.at s) h }

  pub Gives-Good : {A : Type 0} {P : A → Type 0} (m : Action A) → Gives c P m → Good c m
  Gives-Good {P = P} m g = record { at = λ s. Gives-Good_out c P s (m s) (g.at s) }

  pub Good-Gives : {A : Type 0} (m : Action A) → Good c m → Gives c (λ _. Unit {0}) m
  Good-Gives m g = record { at = λ s. Good-Gives_out c s (m s) (g.at s) }

  pub Good-behind :
      {A B : Type 0} {P : A → Type 0} (m : Action A) (f : A → Action B)
      → Gives c P m
      → ((a : A) → P a → Good c (f a))
      → Good c (m >>= f)
  Good-behind m f g h = Gives-Good (m >>= f) (Gives-bind m f g (λ a p. Good-Gives (f a) (h a p)))

  pub Gives-branch :
      {A : Type 0} {P : A → Type 0} (test : Bool) (m n : Action A)
      → Gives c P m
      → Gives c P n
      → Gives c P (branch test m n)
  unfolding branch
  Gives-branch true m n g h = record { at = λ s. g.at s }
  Gives-branch false m n g h = record { at = λ s. h.at s }

  pub Gives-weaken :
      {A : Type 0} {P Q : A → Type 0} (m : Action A)
      → Gives c P m
      → ((a : A) → P a → Q a)
      → Gives c Q m
  Gives-weaken {P = P} {Q = Q} m g h = record { at = λ s. Yields-weaken c P Q s (m s) (g.at s) h }
