-- ===== src/Desk/Debited.antt =====
-- The stage that takes a claim off the balance keeps the invariant.
use bitz_pool.Common.{
  ℕ, ◌≡◌, refl, sym, subst, ap, ◌∙◌, inl, inr, Bool, Bool-cases, true, false, some, List, [], ◌∷◌,
  ◌==◌, ==_iff, any, map, arith,
}
use bitz_pool.Common.Map.{HashMap, get}
use bitz_pool.Database.Tables.{Miner, Pool, Reward, Tables}
use bitz_pool.Database.Link.{AppDatabaseError, Result, ok, err, find}
use bitz_pool.Database.Valid.{IsValid, Distinct}
use bitz_pool.Claims.{Queue}
use bitz_pool.Replica.{is_of}
use bitz_pool.Replica.CaughtUp.{is_of-find, find-holds}
use bitz_pool.Desk.{Request, Paid, decreasing, adding_claimed, reward_of, on_ok}
use bitz_pool.Desk.Rows.{KeepsOthers}
use bitz_pool.Desk.Sound.{IsCovered, Found, Sound, Asking-Keeps}

has_id :
    (p : Miner → Bool) (b : Miner) (miners : List Miner)
    → find p miners ≡ some b
    → any (λ y. y == b.id) (map (λ m. m.id) miners) ≡ true
has_id p b [] h = absurd cc
has_id p b (x ∷ miners) h = elim (Bool-cases (p x)) [
  | inl own ↦ (let same : x ≡ b = ground arith in ground (arith, ap (λ m. m.id) same))
  | inr other ↦ ground (arith, has_id p b miners)
]

-- Two keys of one miner.
same_id :
    (k j : ℕ) (a b : Miner) (miners : List Miner)
    → Distinct (map (λ m. m.id) miners)
    → find (λ m. m.pubkey == k) miners ≡ some a
    → find (λ m. m.pubkey == j) miners ≡ some b
    → a.id ≡ b.id
    → k ≡ j
same_id k j a b [] d h l e = absurd cc
same_id k j a b (x ∷ miners) d h l e = elim (Bool-cases (x.pubkey == k)) [
  | inl own ↦ elim (Bool-cases (x.pubkey == j)) [
    | inl too ↦ sym ((==_iff x.pubkey k).0 own) ∙ (==_iff x.pubkey j).0 too
    | inr other ↦
        let first : x ≡ a = ground arith in
        let there = has_id (λ m. m.pubkey == j) b miners (ground arith) in
        let ids : b.id ≡ x.id = sym e ∙ ap (λ m. m.id) (sym first) in
        let again = subst (λ i. any (λ y. y == i) (map (λ m. m.id) miners) ≡ true) ids there in
        absurd cc
  ]
  | inr other ↦ elim (Bool-cases (x.pubkey == j)) [
    | inl own ↦
        let first : x ≡ b = ground arith in
        let there = has_id (λ m. m.pubkey == k) a miners (ground arith) in
        let ids : a.id ≡ x.id = e ∙ ap (λ m. m.id) (sym first) in
        let again = subst (λ i. any (λ y. y == i) (map (λ m. m.id) miners) ≡ true) ids there in
        absurd cc
    | inr too ↦ same_id k j a b miners d.1 (ground arith) (ground arith) e
  ]
]

-- The row of another miner is not the one that is debited.
other_owner :
    (k j : ℕ) (m : Miner) (r : Reward) (t : Tables)
    → IsValid t
    → Found k m t
    → reward_of j t ≡ some r
    → (k ≡ j → ⊥)
    → (r.miner_id == m.id) ≡ false
other_owner k j m r t v found at other = elim (Bool-cases (r.miner_id == m.id)) [
  | inr is_not ↦ is_not
  | inl own ↦
      let member = find-holds (λ x. is_of j t.miners x.miner_id) t.rewards r at in
      let (b, at_b, its) = is_of-find j r.miner_id t.miners v.pubkeys member in
      absurd (
        other
          (same_id k j m b t.miners v.ids found at_b (sym (its ∙ (==_iff r.miner_id m.id).0 own))))
]

pub decreased-Sound :
    (q : Queue) (t : Tables) (rs : HashMap Request) (p : Paid) (m : Miner) (pool : Pool)
    (r : Result (Unit {0}) × Tables)
    → IsValid r.1
    → KeepsOthers m.id t r.1
    → ((e : AppDatabaseError) → r.0 ≡ err e → r.1 ≡ t)
    → Sound (record { queue = q; tables = t; requests = rs; worker = decreasing p m pool })
    → Sound (record {
      queue = q;
      tables = (on_ok r (decreasing p m pool) (λ _. adding_claimed p m pool)).1;
      requests = rs;
      worker = (on_ok r (decreasing p m pool) (λ _. adding_claimed p m pool)).0;
    })
decreased-Sound q t rs p m pool (err e, t') v others failed s =
    subst
      (λ u. Sound (record { queue = q; tables = u; requests = rs; worker = decreasing p m pool }))
      (sym (failed e refl)) s
decreased-Sound q t rs p m pool (ok a, t') v others failed s =
    let kept : (j amount : ℕ)
        → (p.miner_pubkey ≡ j → ⊥)
        → IsCovered j amount t
        → IsCovered j amount t' =
      λ j amount other (row, at, le). (
        row,
        others.1 j row at (other_owner p.miner_pubkey j m row t s.valid s.busy.1 at other),
        le,
      ) in
    record {
      valid = v;
      queued = λ j item e. elim (Bool-cases (p.miner_pubkey == j)) [
        | inl same ↦ inr ((==_iff p.miner_pubkey j).0 same)
        | inr other ↦ elim (s.queued j item e) [
          | inl c ↦ inl (kept j item.amount (λ h. ground (arith, (==_iff p.miner_pubkey j).1 h)) c)
          | inr past ↦ absurd past
        ]
      ];
      asked = λ j r e.
          Asking-Keeps j r q t t'
            (λ amount none_there c.
              kept j amount (λ h. let mine = subst (λ i. get i q ≡ some p.item) h s.busy.0 in cc) c)
            (s.asked j r e);
      busy = tt;
    }
