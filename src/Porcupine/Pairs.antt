-- ===== src/Porcupine/Pairs.antt =====
-- Calls and their returns in a list of items.
use mit_distributed_systems.Prelude.{
  sym, ℕ, ◌+◌, ◌<◌, ◌≡◌, ◌≢◌, refl, ap, ◌∙◌, List, [], ◌∷◌, ◌++◌, length, Bool-cases, inl, inr,
  none, some, pos, ◌==◌, arith, length-append,
}
use mit_distributed_systems.Porcupine.History.{call_entry, return_entry}
use mit_distributed_systems.Porcupine.Items.{Item}
use mit_distributed_systems.Porcupine.Links.{Node}
use mit_distributed_systems.Porcupine.Reference.{without, return_of}

module _ {V : Type 0} where
  -- No item has this identifier.
  abbrev pub Clear : ℕ → List (Item V) → Type 0
  Clear i [] = Unit {0}
  Clear i (a ∷ items) = (a.1.id ≢ i) × Clear i items

  without-append :
      (i : ℕ) (xs ys : List (Item V)) → without i (xs ++ ys) ≡ without i xs ++ without i ys
  without-append i [] ys = refl
  without-append i (x ∷ xs) ys = ground (arith, without-append i xs ys)

  without-Clear : (i : ℕ) (xs : List (Item V)) → Clear i xs → without i xs ≡ xs
  without-Clear i [] h = refl
  without-Clear i (x ∷ xs) (ne, h) = ground (arith, ne, without-Clear i xs h)

  pub return_of-Clear :
      (i : ℕ) (xs ys : List (Item V)) → Clear i xs → return_of i (xs ++ ys) ≡ return_of i ys
  return_of-Clear i [] ys h = refl
  return_of-Clear i (x ∷ xs) ys (ne, h) = ground (arith, ne, return_of-Clear i xs ys h)

  Clear-without : (i j : ℕ) (xs : List (Item V)) → Clear i xs → Clear i (without j xs)
  Clear-without i j [] h = tt
  Clear-without i j (x ∷ xs) (ne, h) = elim (Bool-cases (x.1.id == j)) [
    | inl e ↦ rw e (Clear-without i j xs h)
    | inr e ↦ rw e (ne, Clear-without i j xs h)
  ]

  append_ne_nil : (xs : List (Item V)) (y : Item V) (ys : List (Item V)) → xs ++ y ∷ ys ≢ []
  append_ne_nil [] y ys h = cc
  append_ne_nil (x ∷ xs) y ys h = cc

  -- A place in the shorter list is one in the longer.
  record Found (j : ℕ) (xs pre : List (Item V)) (a : Item V) (post : List (Item V)) : Type 0 where
    before : List (Item V)
    after : List (Item V)
    whole : xs ≡ before ++ a ∷ after
    pre_is : without j before ≡ pre
    post_is : without j after ≡ post
    differs : a.1.id ≢ j

  Found-skip :
      (j : ℕ) (x : Item V) (xs pre : List (Item V)) (a : Item V) (post : List (Item V))
      → x.1.id ≡ j
      → Found j xs pre a post
      → Found j (x ∷ xs) pre a post
  Found-skip j x xs pre a post e f = record {
    before = x ∷ f.before;
    after = f.after;
    whole = ap (λ l. x ∷ l) f.whole;
    pre_is = ground (arith, f.pre_is, e);
    post_is = f.post_is;
    differs = f.differs;
  }

  find :
      (j : ℕ) (xs pre : List (Item V)) (a : Item V) (post : List (Item V))
      → without j xs ≡ pre ++ a ∷ post
      → Found j xs pre a post
  find j [] [] a post h = cc
  find j [] (y ∷ pre) a post h = cc
  find j (x ∷ xs) [] a post h = elim (Bool-cases (x.1.id == j)) [
    | inl e ↦
        Found-skip j x xs [] a post (ground (arith, e)) (find j xs [] a post (ground (arith, e, h)))
    | inr e ↦ record {
      before = [];
      after = xs;
      whole = ground (arith, e, h);
      pre_is = refl;
      post_is = ground (arith, e, h);
      differs = ground (arith, e, h);
    }
  ]
  find j (x ∷ xs) (y ∷ pre) a post h = elim (Bool-cases (x.1.id == j)) [
    | inl e ↦
        Found-skip j x xs (y ∷ pre) a post (ground (arith, e))
          (find j xs (y ∷ pre) a post (ground (arith, e, h)))
    | inr e ↦
        let f = find j xs pre a post (ground (arith, e, h)) in
        record {
          before = x ∷ f.before;
          after = f.after;
          whole = ap (λ l. x ∷ l) f.whole;
          pre_is = ground (arith, f.pre_is, e, h);
          post_is = f.post_is;
          differs = f.differs;
        }
  ]

-- `s` holds the nodes, and `n` is the number of operations.
module _ {V : Type 0} (s : ℕ → Node V) (n : ℕ) where
  -- The return of the call `c`, which is the only other item of its operation, and what the two nodes
  -- hold.
  pub record Pair (seen : List (Item V)) (c : Item V) (rest : List (Item V)) : Type 0 where
    pub mid : List (Item V)
    pub ret : Item V
    pub post : List (Item V)
    pub split : rest ≡ mid ++ ret ∷ post
    pub ends : ret.1.kind ≡ return_entry
    pub same : ret.1.id ≡ c.1.id
    pub clear_seen : Clear c.1.id seen
    pub clear_mid : Clear c.1.id mid
    pub clear_post : Clear c.1.id post
    pub matched : (s c.0).matching ≡ some ret.0
    pub input : (s c.0).value ≡ some c.1.value
    pub output : (s ret.0).value ≡ some ret.1.value
    pub ident : (s c.0).id ≡ pos c.1.id
    pub below : c.1.id < n

  pub record IsPaired (items : List (Item V)) : Type 0 where
    pub calls :
        (seen : List (Item V)) (c : Item V) (rest : List (Item V))
        → items ≡ seen ++ c ∷ rest
        → c.1.kind ≡ call_entry
        → Pair seen c rest
    pub returns :
        (seen : List (Item V)) (r : Item V) (rest : List (Item V))
        → items ≡ seen ++ r ∷ rest
        → r.1.kind ≡ return_entry
        → (s r.0).matching ≡ none

  Pair-without :
      (j : ℕ) (seen : List (Item V)) (c : Item V) (rest : List (Item V))
      → c.1.id ≢ j
      → Pair seen c rest
      → Pair (without j seen) c (without j rest)
  Pair-without j seen c rest ne p = record {
    mid = without j p.mid;
    ret = p.ret;
    post = without j p.post;
    split =
        ap (without j) p.split
        ∙ without-append j p.mid (p.ret ∷ p.post)
        ∙ ap (λ l. without j p.mid ++ l) (ground (arith, p.same, ne));
    ends = p.ends;
    same = p.same;
    clear_seen = Clear-without c.1.id j seen p.clear_seen;
    clear_mid = Clear-without c.1.id j p.mid p.clear_mid;
    clear_post = Clear-without c.1.id j p.post p.clear_post;
    matched = p.matched;
    input = p.input;
    output = p.output;
    ident = p.ident;
    below = p.below;
  }

  pub IsPaired-without :
      (j : ℕ) (items : List (Item V)) → IsPaired items → IsPaired (without j items)
  IsPaired-without j items v = record {
    calls = λ seen c rest e k.
        let f = find j items seen c rest e in
        rw (← f.pre_is, ← f.post_is)
          (Pair-without j f.before c f.after f.differs (v.calls f.before c f.after f.whole k));
    returns = λ seen r rest e k.
        let f = find j items seen r rest e in v.returns f.before r f.after f.whole k;
  }

  pub Pair-ne_nil :
      (seen : List (Item V)) (c : Item V) (rest : List (Item V)) → Pair seen c rest → rest ≢ []
  Pair-ne_nil seen c rest p h = append_ne_nil p.mid p.ret p.post (sym p.split ∙ h)

  -- What the search reads of a pair.
  pub Pair-return_of :
      (seen : List (Item V)) (c : Item V) (rest : List (Item V)) (p : Pair seen c rest)
      → return_of c.1.id rest ≡ some p.ret
  Pair-return_of seen c rest p =
      ap (return_of c.1.id) p.split
      ∙ return_of-Clear c.1.id p.mid (p.ret ∷ p.post) p.clear_mid
      ∙ ground (arith, p.same, p.ends)

  pub Pair-left :
      (seen : List (Item V)) (c : Item V) (rest : List (Item V)) (p : Pair seen c rest)
      → without c.1.id (seen ++ c ∷ rest) ≡ seen ++ (p.mid ++ p.post)
  Pair-left seen c rest p =
      let i = c.1.id in
      let tail : without i (c ∷ rest) ≡ p.mid ++ p.post =
        (let here : without i (c ∷ rest) ≡ without i rest = ground arith in here)
        ∙ ap (without i) p.split
        ∙ without-append i p.mid (p.ret ∷ p.post)
        ∙ ap (λ l. without i p.mid ++ l) (ground (arith, p.same))
        ∙ ap (λ l. l ++ without i p.post) (without-Clear i p.mid p.clear_mid)
        ∙ ap (λ l. p.mid ++ l) (without-Clear i p.post p.clear_post) in
      without-append i seen (c ∷ rest)
      ∙ ap (λ l. l ++ without i (c ∷ rest)) (without-Clear i seen p.clear_seen)
      ∙ ap (λ l. seen ++ l) tail

  pub Pair-length :
      (seen : List (Item V)) (c : Item V) (rest : List (Item V)) (p : Pair seen c rest)
      → length (seen ++ (p.mid ++ p.post)) + 2 ≡ length (seen ++ c ∷ rest)
  Pair-length seen c rest p = omega (
    arith,
    length-append seen (p.mid ++ p.post),
    length-append p.mid p.post,
    length-append seen (c ∷ rest),
    length-append p.mid (p.ret ∷ p.post),
    ap length p.split,
  )
