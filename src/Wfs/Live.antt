-- ===== src/Wfs/Live.antt =====
-- What number_to_inode finds: the last entry of a number, and how the two ways of writing to the log
-- change it.
use cs537projects.Base.{
  subst, ℕ, zero, suc, ◌+◌, ◌<◌, ◌≡◌, refl, sym, ap, ◌∙◌, ◌≢◌, Option, none, some, List, [], ◌∷◌,
  ◌++◌, arith, ◌==◌, if◌then◌else◌, length, Option-cases, Bool-cases, inl, inr, ==_iff, ℕ_discrete,
}
use cs537projects.Wfs.Log.{
  LogEntry, entry_at, last_from, number_to_inode, unless_deleted, delete_at,
}

-- The index of the last entry of the number.
unfoldable pub last_index : ℕ → List LogEntry → Option ℕ
last_index n [] = none
last_index n (e ∷ es) = elim (last_index n es) [
  | some k ↦ some (suc k)
  | none ↦ if e.inode_number == n then some 0 else none
]

abbrev or_last : ℕ → Option ℕ → Option ℕ → Option ℕ
or_last i cur none = cur
or_last i cur (some k) = some (i + k)

last_from_lem :
    (n i : ℕ) (cur : Option ℕ) (es : List LogEntry)
    → last_from n i cur es ≡ or_last i cur (last_index n es)
unfolding last_from last_index
last_from_lem n i cur [] = refl
last_from_lem n i cur (e ∷ es) =
    last_from_lem n (suc i) (if e.inode_number == n then some i else cur) es
    ∙ elim (Option-cases (last_index n es)) [
      | inl none_in ↦ rw none_in (elim (Bool-cases (e.inode_number == n)) [
        | inl same ↦ rw same (ap some (omega arith))
        | inr other ↦ rw other refl
      ])
      | inr (k, at) ↦ rw at (ap some (omega arith))
    ]

last_index-append :
    (n : ℕ) (xs : List LogEntry) (e : LogEntry)
    → last_index n (xs ++ e ∷ [])
      ≡ (if e.inode_number == n then some (length xs) else last_index n xs)
unfolding last_index
last_index-append n [] e = refl
last_index-append n (x ∷ xs) e =
    rw (last_index-append n xs e) (elim (Bool-cases (e.inode_number == n)) [
      | inl same ↦ rw same refl
      | inr other ↦ rw other refl
    ])

last_index-delete_at :
    (n i : ℕ) (xs : List LogEntry) → last_index n (delete_at i xs) ≡ last_index n xs
unfolding last_index
last_index-delete_at n i [] = refl
last_index-delete_at n zero (x ∷ xs) = refl
last_index-delete_at n (suc i) (x ∷ xs) = rw (last_index-delete_at n i xs) refl

-- An index that the search may return.
abbrev pub InLog : ℕ → List LogEntry → Option ℕ → Type 0
InLog n xs none = Unit {0}
InLog n xs (some k) = (k < length xs) × ((entry_at k xs).inode_number ≡ n)

pub last_index-InLog : (n : ℕ) (xs : List LogEntry) → InLog n xs (last_index n xs)
unfolding last_index
last_index-InLog n [] = tt
last_index-InLog n (x ∷ xs) =
    let rest = last_index-InLog n xs in
    elim (Option-cases (last_index n xs)) [
      | inl none_in ↦ rw none_in (elim (Bool-cases (x.inode_number == n)) [
        | inl same ↦ rw same (omega arith, (==_iff x.inode_number n).0 same)
        | inr other ↦ rw other tt
      ])
      | inr (k, at) ↦
          let there : InLog n xs (some k) = subst (λ o. InLog n xs o) at rest in
          rw at (omega (arith, there.0), there.1)
    ]

entry_at-append :
    (k : ℕ) (xs ys : List LogEntry) → k < length xs → entry_at k (xs ++ ys) ≡ entry_at k xs
entry_at-append k [] ys h = absurd (omega arith)
entry_at-append zero (x ∷ xs) ys h = refl
entry_at-append (suc k) (x ∷ xs) ys h = entry_at-append k xs ys (omega arith)

entry_at-append_last : (xs : List LogEntry) (e : LogEntry) → entry_at (length xs) (xs ++ e ∷ []) ≡ e
entry_at-append_last [] e = refl
entry_at-append_last (x ∷ xs) e = entry_at-append_last xs e

entry_at-delete_at :
    (k i : ℕ) (xs : List LogEntry) → k ≢ i → entry_at k (delete_at i xs) ≡ entry_at k xs
entry_at-delete_at k i [] h = refl
entry_at-delete_at zero zero (x ∷ xs) h = absurd (h refl)
entry_at-delete_at zero (suc i) (x ∷ xs) h = refl
entry_at-delete_at (suc k) zero (x ∷ xs) h = refl
entry_at-delete_at (suc k) (suc i) (x ∷ xs) h = entry_at-delete_at k i xs (λ e. h (ap suc e))

-- The entry, unless it is deleted.
abbrev pub alive : LogEntry → Option LogEntry
alive e = if e.deleted == 0 then some e else none

abbrev alive_at : List LogEntry → Option ℕ → Option LogEntry
alive_at log none = none
alive_at log (some k) = alive (entry_at k log)

-- The entry that number_to_inode points to.
unfoldable pub live : ℕ → List LogEntry → Option LogEntry
unfolding number_to_inode
live n log = elim (number_to_inode n log) [ none ↦ none | some i ↦ some (entry_at i log) ]

abbrev pub pointed : List LogEntry → Option ℕ → Option LogEntry
pointed log none = none
pointed log (some i) = some (entry_at i log)

number_to_inode_lem :
    (n : ℕ) (log : List LogEntry) → number_to_inode n log ≡ unless_deleted log (last_index n log)
unfolding number_to_inode
number_to_inode_lem n log =
    ap (λ o. unless_deleted log o) (last_from_lem n 0 none log)
    ∙ elim (Option-cases (last_index n log)) [
      | inl none_in ↦ rw none_in refl
      | inr (k, at) ↦ rw at (ap (λ i. unless_deleted log (some i)) (omega arith))
    ]

live_lem : (n : ℕ) (log : List LogEntry) → live n log ≡ alive_at log (last_index n log)
unfolding live unless_deleted
live_lem n log =
    rw (number_to_inode_lem n log, live)
      (elim (Option-cases (last_index n log)) [
        | inl none_in ↦ rw none_in refl
        | inr (k, at) ↦ rw at (elim (Bool-cases ((entry_at k log).deleted == 0)) [
          | inl zero_there ↦ rw zero_there refl
          | inr deleted_there ↦ rw deleted_there refl
        ])
      ])

pub number_to_inode-last :
    (n i : ℕ) (log : List LogEntry) → number_to_inode n log ≡ some i → last_index n log ≡ some i
unfolding unless_deleted
number_to_inode-last n i log h =
    let known : unless_deleted log (last_index n log) ≡ some i =
      sym (number_to_inode_lem n log) ∙ h in
    elim (Option-cases (last_index n log)) [
      | inl none_in ↦ absurd (cc (known, none_in))
      | inr (k, at) ↦
          let at_k : unless_deleted log (some k) ≡ some i =
            subst (λ o. unless_deleted log o ≡ some i) at known in
          elim (Bool-cases ((entry_at k log).deleted == 0)) [
            | inl zero_there ↦ cc (at, at_k, zero_there)
            | inr deleted_there ↦ cc (at_k, deleted_there)
          ]
    ]

pub live-append :
    (m : ℕ) (xs : List LogEntry) (e : LogEntry)
    → live m (xs ++ e ∷ []) ≡ (if e.inode_number == m then alive e else live m xs)
live-append m xs e = rw (live_lem m (xs ++ e ∷ [])) (
    rw (live_lem m xs) (
      rw (last_index-append m xs e) (elim (Bool-cases (e.inode_number == m)) [
        | inl same ↦ rw same (rw (entry_at-append_last xs e) refl)
        | inr other ↦
            let bound = last_index-InLog m xs in
            rw other (elim (Option-cases (last_index m xs)) [
              | inl none_in ↦ rw none_in refl
              | inr (k, at) ↦
                  let there : InLog m xs (some k) = subst (λ o. InLog m xs o) at bound in
                  rw at (ap alive (entry_at-append k xs (e ∷ []) there.0))
            ])
      ])))

live-delete_other :
    (m n i : ℕ) (xs : List LogEntry)
    → last_index n xs ≡ some i
    → m ≢ n
    → live m (delete_at i xs) ≡ live m xs
live-delete_other m n i xs found_n ne =
    let bound = last_index-InLog m xs in
    let of_n : InLog n xs (some i) = subst (λ o. InLog n xs o) found_n (last_index-InLog n xs) in
    rw (live_lem m (delete_at i xs)) (
      rw (live_lem m xs) (
        rw (last_index-delete_at m i xs) (elim (Option-cases (last_index m xs)) [
          | inl none_in ↦ rw none_in refl
          | inr (k, at) ↦
              let there : InLog m xs (some k) = subst (λ o. InLog m xs o) at bound in
              rw at (
                ap alive (
                  entry_at-delete_at k i xs
                    (λ e. ne (sym there.1 ∙ ap (λ j. (entry_at j xs).inode_number) e ∙ of_n.1))))
        ])))

-- A deletion in place with an appended successor changes one number only.
pub live-replace :
    (m n i : ℕ) (xs : List LogEntry) (new : LogEntry)
    → number_to_inode n xs ≡ some i
    → new.inode_number ≡ n
    → new.deleted ≡ 0
    → live m (delete_at i xs ++ new ∷ []) ≡ (if m == n then some new else live m xs)
live-replace m n i xs new found_n same fresh =
    live-append m (delete_at i xs) new ∙ elim (ℕ_discrete m n) [
      | yes e ↦ ground (arith, e, same, fresh)
      | no ne ↦ ground (arith, live-delete_other m n i xs (number_to_inode-last n i xs found_n) ne)
    ]
