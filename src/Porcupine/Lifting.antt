-- ===== src/Porcupine/Lifting.antt =====
-- src/porcupine/checker.go: `lift` and `unlift` on the list of items that a store holds.
use mit_distributed_systems.Prelude.{
  ℕ, ◌≡◌, refl, sym, subst, ap, ◌∙◌, List, [], ◌∷◌, ◌++◌, append_assoc, append-nil, none, some,
  arith,
}
use mit_distributed_systems.Porcupine.Items.{Item}
use mit_distributed_systems.Porcupine.Links.{Node, lift, unlift, lift_match, unlift_match, set_next}
use mit_distributed_systems.Porcupine.Restore.{
  detach, lift_match-detach, unlift_match-detach, lift_match-cut, unlift_match-cut, lift-detach,
  unlift-attach,
}
use mit_distributed_systems.Porcupine.Chain.{
  Chain, last, Chain-behind, Chain-detach, Chain-cut, Chain-IsBetween, Chain-IsLast,
}

module _ {V : Type 0} where
  -- Two stores that differ in the pointers of the list alone.
  abbrev pub SameNodes : (ℕ → Node V) → (ℕ → Node V) → Type 0
  SameNodes s s' =
      (x : ℕ)
      → ((s' x).value ≡ (s x).value) × ((s' x).id ≡ (s x).id) × ((s' x).matching ≡ (s x).matching)

  SameNodes-detach : (s : ℕ → Node V) (q b : ℕ) → SameNodes s (detach s q b)
  SameNodes-detach s q b x = (ground arith, ground arith, ground arith)

  SameNodes-cut : (s : ℕ → Node V) (q : ℕ) → SameNodes s (set_next s q none)
  SameNodes-cut s q x = (ground arith, ground arith, ground arith)

  pub SameNodes-trans : (s t u : ℕ → Node V) → SameNodes s t → SameNodes t u → SameNodes s u
  SameNodes-trans s t u h k x = ((k x).0 ∙ (h x).0, (k x).1 ∙ (h x).1, (k x).2 ∙ (h x).2)

module _ {V : Type 0} (rank : ℕ → ℕ) where
  -- What taking a node out gives: the store then, and the way back.
  record Unlinked (s : ℕ → Node V) (p m : ℕ) (items : List (Item V)) : Type 0 where
    store : ℕ → Node V
    gone : lift_match s m ≡ some store
    back : unlift_match store m ≡ some s
    chain : Chain rank store p items
    same : SameNodes s store

  unlink :
      (s : ℕ → Node V) (p : ℕ) (pre : List (Item V)) (m : Item V) (post : List (Item V))
      → Chain rank s p (pre ++ m ∷ post)
      → Unlinked s p m.0 (pre ++ post)
  unlink s p pre m [] h =
      let at = Chain-IsLast rank s (last p pre) m (Chain-behind rank s p pre (m ∷ []) h).0 in
      record {
        store = set_next s (last p pre) none;
        gone = lift_match-cut s rank (last p pre) m.0 at;
        back = unlift_match-cut s rank (last p pre) m.0 at;
        chain =
            subst (Chain rank (set_next s (last p pre) none) p) (sym (append-nil pre))
              (Chain-cut rank s p pre m h);
        same = SameNodes-cut s (last p pre);
      }
  unlink s p pre m (z ∷ post) h =
      let at =
        Chain-IsBetween rank s (last p pre) m z post
          (Chain-behind rank s p pre (m ∷ z ∷ post) h).0 in
      record {
        store = detach s (last p pre) z.0;
        gone = lift_match-detach s rank (last p pre) m.0 z.0 at;
        back = unlift_match-detach s rank (last p pre) m.0 z.0 at;
        chain = Chain-detach rank s p pre m z post h;
        same = SameNodes-detach s (last p pre) z.0;
      }

  -- A call and its return taken out of the list together: the store then, and the way back.
  pub record Lifted (s : ℕ → Node V) (p e : ℕ) (items : List (Item V)) : Type 0 where
    pub store : ℕ → Node V
    pub gone : lift s e ≡ some store
    pub back : unlift store e ≡ some s
    pub chain : Chain rank store p items
    pub same : SameNodes s store

  lift_before :
      (s : ℕ → Node V) (p : ℕ) (seen : List (Item V)) (a b : Item V) (rest : List (Item V))
      (m : Item V) (mid post : List (Item V))
      → b ∷ rest ≡ mid ++ m ∷ post
      → (s a.0).matching ≡ some m.0
      → Chain rank s p (seen ++ a ∷ b ∷ rest)
      → Lifted s p a.0 (seen ++ (mid ++ post))
  lift_before s p seen a b rest m mid post e matched h =
      let q = last p seen in
      let at = Chain-IsBetween rank s q a b rest (Chain-behind rank s p seen (a ∷ b ∷ rest) h).0 in
      let cut : Chain rank (detach s q b.0) p ((seen ++ mid) ++ m ∷ post) =
        subst (Chain rank (detach s q b.0) p)
          (ap (λ l. seen ++ l) e ∙ sym (append_assoc seen mid (m ∷ post)))
          (Chain-detach rank s p seen a b rest h) in
      let u = unlink (detach s q b.0) p (seen ++ mid) m post cut in
      let same = SameNodes-trans s (detach s q b.0) u.store (SameNodes-detach s q b.0) u.same in
      record {
        store = u.store;
        gone = lift-detach s rank q a.0 b.0 m.0 at matched ∙ u.gone;
        back = unlift-attach s u.store rank q a.0 b.0 m.0 at ((same a.0).2 ∙ matched) u.back;
        chain = subst (Chain rank u.store p) (append_assoc seen mid post) u.chain;
        same = same;
      }

  pub lift-Lifted :
      (s : ℕ → Node V) (p : ℕ) (seen : List (Item V)) (a : Item V) (mid : List (Item V))
      (m : Item V) (post : List (Item V))
      → (s a.0).matching ≡ some m.0
      → Chain rank s p (seen ++ a ∷ (mid ++ m ∷ post))
      → Lifted s p a.0 (seen ++ (mid ++ post))
  lift-Lifted s p seen a [] m post matched h =
      lift_before s p seen a m post m [] post refl matched h
  lift-Lifted s p seen a (b ∷ mid) m post matched h =
      lift_before s p seen a b (mid ++ m ∷ post) m (b ∷ mid) post refl matched h
