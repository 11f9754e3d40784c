-- ===== src/Wat/Encode/Grows.antt =====
-- What every step of the encoder keeps: it goes through no null pointer, its loops and recursion
-- end, and where it returns the frames are as before and the tables and the bytes only grew.
use lua2wasm.Prelude.{
  ℕ, Bytes, List, [], ◌++◌, Bool, true, false, Option, none, some, ◌≡◌, ◌≢◌, ◌⊎◌, refl, sym, ◌∙◌,
  append-nil, append_assoc,
}
use lua2wasm.Wat.Reader.{SExpr, Kids, no_kids, kid}
use lua2wasm.Wat.Encode.{
  Ctx, Encoder, FuncSig, Refusal, Out, done, failed, null, overread, stuck, Action, pure, fail,
  branch, on_option, put, put_bytes, put_uleb, put_sleb, next_of, continue, ◌>>=◌, ◌>>◌,
}

pub record Grows (s t : Encoder) : Type 0 where
  pub labels_kept : t.labels ≡ s.labels
  pub new_sigs : List FuncSig
  pub sigs_grow : t.sigs ≡ s.sigs ++ new_sigs
  pub new_bytes : Bytes
  pub bytes_grow : t.out ≡ s.out ++ new_bytes

pub Grows-refl : (s : Encoder) → Grows s s
Grows-refl s = record {
  labels_kept = refl;
  new_sigs = [];
  sigs_grow = sym (append-nil s.sigs);
  new_bytes = [];
  bytes_grow = sym (append-nil s.out);
}

pub Grows-trans : (s t u : Encoder) → Grows s t → Grows t u → Grows s u
Grows-trans s t u g h = record {
  labels_kept = h.labels_kept ∙ g.labels_kept;
  new_sigs = g.new_sigs ++ h.new_sigs;
  sigs_grow = h.sigs_grow ∙ simp (g.sigs_grow, append_assoc);
  new_bytes = g.new_bytes ++ h.new_bytes;
  bytes_grow = h.bytes_grow ∙ simp (g.bytes_grow, append_assoc);
}

-- Some index is mapped to another one.
abbrev pub Remaps : Ctx → Type 0
Remaps c = (c.func_remap ≢ none) ⊎ (c.global_remap ≢ none) ⊎ (c.sig_remap ≢ none)

-- An array is read beyond its end only where an index is mapped.
abbrev pub Returns : {A : Type 0} → Ctx → Encoder → Out A → Type 0
Returns c s (done a t) = Grows s t
Returns c s (failed why) = Unit
Returns c s null = ⊥
Returns c s overread = Remaps c
Returns c s stuck = ⊥

pub record Good {A : Type 0} (c : Ctx) (m : Action A) : Type 0 where
  pub at : (s : Encoder) → Returns c s (m s)

pub Returns-trans :
    {A : Type 0} (c : Ctx) (s t : Encoder) (r : Out A) → Grows s t → Returns c t r → Returns c s r
Returns-trans c s t (done a u) g h = Grows-trans s t u g h
Returns-trans c s t (failed why) g h = h
Returns-trans c s t null g h = h
Returns-trans c s t overread g h = h
Returns-trans c s t stuck g h = h

Returns-continue :
    {A B : Type 0} (c : Ctx) (s : Encoder) (r : Out A) (f : A → Action B)
    → Returns c s r
    → ((a : A) → Good c (f a))
    → Returns c s (continue r f)
Returns-continue c s (done a t) f h k = Returns-trans c s t (f a t) h ((k a).at t)
Returns-continue c s (failed why) f h k = h
Returns-continue c s null f h k = h
Returns-continue c s overread f h k = h
Returns-continue c s stuck f h k = h

abbrev pub IsNode : Kids → Type 0
IsNode no_kids = ⊥
IsNode (kid n rest) = Unit

-- A resolution that reports an error at NULL.
abbrev pub FailsAtNull : {A : Type 0} → (Kids → Action A) → Type 0
FailsAtNull m = (why : Refusal) × ((s : Encoder) → m no_kids s ≡ failed why)

module _ {c : Ctx} where
  pub Good-pure : {A : Type 0} (a : A) → Good c (pure a)
  unfolding pure
  Good-pure a = record { at = λ s. Grows-refl s }

  pub Good-fail : {A : Type 0} (why : Refusal) → Good c (fail {A = A} why)
  unfolding fail
  Good-fail why = record { at = λ s. tt }

  pub Good-bind :
      {A B : Type 0} (m : Action A) (f : A → Action B)
      → Good c m
      → ((a : A) → Good c (f a))
      → Good c (m >>= f)
  unfolding ◌>>=◌
  Good-bind m f g h = record { at = λ s. Returns-continue c s (m s) f (g.at s) h }

  pub Good-then :
      {A B : Type 0} (m : Action A) (k : Action B) → Good c m → Good c k → Good c (m >> k)
  Good-then m k g h = Good-bind m (λ _. k) g (λ _. h)

  pub Good-branch :
      {A : Type 0} (test : Bool) (m n : Action A) → Good c m → Good c n → Good c (branch test m n)
  unfolding branch
  Good-branch true m n g h = record { at = λ s. g.at s }
  Good-branch false m n g h = record { at = λ s. h.at s }

  pub Good-branch_when :
      {A : Type 0} (test : Bool) (m n : Action A)
      → (test ≡ true → Good c m)
      → Good c n
      → Good c (branch test m n)
  unfolding branch
  Good-branch_when true m n g h = record { at = λ s. (g refl).at s }
  Good-branch_when false m n g h = record { at = λ s. h.at s }

  pub Good-on_option :
      {A B : Type 0} (o : Option A) (m : Action B) (f : A → Action B)
      → Good c m
      → ((a : A) → Good c (f a))
      → Good c (on_option o m f)
  unfolding on_option
  Good-on_option none m f g h = g
  Good-on_option (some a) m f g h = h a

  pub Good-on_option_when :
      {A B : Type 0} (o : Option A) (m : Action B) (f : A → Action B)
      → Good c m
      → ((a : A) → o ≡ some a → Good c (f a))
      → Good c (on_option o m f)
  unfolding on_option
  Good-on_option_when none m f g h = g
  Good-on_option_when (some a) m f g h = h a refl

  pub Good-put_bytes : (bs : Bytes) → Good c (put_bytes bs)
  unfolding put_bytes
  Good-put_bytes bs = record {
    at = λ s. record {
      labels_kept = refl;
      new_sigs = [];
      sigs_grow = sym (append-nil s.sigs);
      new_bytes = bs;
      bytes_grow = refl;
    };
  }

  pub Good-put : (b : ℕ) → Good c (put b)
  unfolding put
  Good-put b = Good-put_bytes _

  pub Good-put_uleb : (v : ℕ) → Good c (put_uleb v)
  unfolding put_uleb
  Good-put_uleb v = Good-put_bytes _

  pub Good-put_sleb : (v : ℕ) → Good c (put_sleb v)
  unfolding put_sleb
  Good-put_sleb v = Good-put_bytes _

  -- Behind a node that is there.
  pub Good-next_of :
      {A : Type 0} (k : Kids) (f : Kids → Action A)
      → IsNode k
      → ((n : SExpr) (r : Kids) → k ≡ kid n r → Good c (f r))
      → Good c (next_of k f)
  unfolding next_of
  Good-next_of no_kids f e g = absurd e
  Good-next_of (kid m r) f e g = g m r refl

  -- What follows a resolution may take its node to be there.
  pub Good-after :
      {A B : Type 0} (m : Kids → Action A) (k : Kids) (f : A → Action B)
      → FailsAtNull m
      → Good c (m k)
      → (IsNode k → (a : A) → Good c (f a))
      → Good c (m k >>= f)
  unfolding ◌>>=◌
  Good-after m no_kids f (why, e) g h = record { at = λ s. rw (e s) tt }
  Good-after m (kid n r) f e g h = Good-bind (m (kid n r)) f g (h tt)

pub ruleset good_rules = (
  Good-pure, Good-fail, Good-bind, Good-then, Good-branch, Good-on_option, Good-put, Good-put_bytes,
  Good-put_uleb, Good-put_sleb,
)
