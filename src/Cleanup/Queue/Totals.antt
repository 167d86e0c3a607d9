-- ===== src/Cleanup/Queue/Totals.antt =====
-- The attempts of all checkpoints, and what a write in their table changes of them
-- (packages/database/src/control-plane.ts).
use text.Mathlib.Text.{◌==◌ as str_eq}
use text.Mathlib.TextEquality.{eq_iff}
use page2web_mcp.Common.{
  ℕ, ◌+◌, ◌*◌, ◌≤◌, ◌≡◌, refl, sym, subst, ◌∙◌, String, none, some, List, [], ◌∷◌, length, arith,
  All, All-map, Bool-cases, none≢some, some_inj, inl, inr,
}
use page2web_mcp.Common.Dict.{Dict, get, set, values, get-set, Entries, Entries-set, Entries-get}
use page2web_mcp.Workflow.Types.{Checkpoint}
use page2web_mcp.Cleanup.Queue.{is_used_up, given_up, store_checkpoint, give_up}

module _ {V : Type 0} where
  -- No key stands twice.
  abbrev pub AreDistinct : Dict V → Type 0
  AreDistinct [] = Unit
  AreDistinct ((k, v) ∷ m) = (get k m ≡ none) × AreDistinct m

  set-AreDistinct : (k : String) (v : V) (m : Dict V) → AreDistinct m → AreDistinct (set k v m)
  unfolding set get
  set-AreDistinct k v [] h = (refl, tt)
  set-AreDistinct k v ((j, w) ∷ m) h = elim (Bool-cases (str_eq j k)) [
    | inl e ↦ rw e h
    | inr e ↦
        rw e (ground (arith, get-set k j v m, eq_iff j k, eq_iff k j), set-AreDistinct k v m h.1)
  ]

  length-set :
      (k : String) (v : V) (m : Dict V) {w : V} → get k m ≡ some w → length (set k v m) ≡ length m
  unfolding set get
  length-set k v [] e = absurd (none≢some e)
  length-set k v ((j, u) ∷ m) e = elim (Bool-cases (str_eq j k)) [
    | inl t ↦ rw t refl
    | inr t ↦ let deeper = length-set k v m (rw t at e) in rw t (omega (arith, deeper))
  ]

-- The key is the id of the run, and three attempts were made at most.
abbrev pub IsEntry : String → Checkpoint → Type 0
IsEntry k c = (k ≡ c.analysis_run_id) × (c.cleanup_attempts ≤ 3)

pub record IsBounded (m : Dict Checkpoint) : Type 0 where
  pub distinct : AreDistinct m
  pub entries : Entries IsEntry m

abbrev pub total : Dict Checkpoint → ℕ
total [] = 0
total ((k, c) ∷ m) = c.cleanup_attempts + total m

pub total-le : (m : Dict Checkpoint) → Entries IsEntry m → total m ≤ 3 * length m
total-le [] h = omega arith
total-le ((k, c) ∷ m) h = omega (arith, total-le m h.1, h.0.1)

total-set :
    (k : String) (v : Checkpoint) (m : Dict Checkpoint) {c : Checkpoint}
    → get k m ≡ some c
    → total (set k v m) + c.cleanup_attempts ≡ total m + v.cleanup_attempts
unfolding set get
total-set k v [] e = absurd (none≢some e)
total-set k v ((j, u) ∷ m) {c} e = elim (Bool-cases (str_eq j k)) [
  | inl t ↦
      let same : u ≡ c = some_inj (rw t at e) in
      rw t (
        subst
          (λ x.
            v.cleanup_attempts + total m + x.cleanup_attempts
            ≡ u.cleanup_attempts + total m + v.cleanup_attempts)
          same (omega arith))
  | inr t ↦ let deeper = total-set k v m (rw t at e) in rw t (omega (arith, deeper))
]

-- The table is still bounded and as long, and `n` attempts were added.
pub record Moved (m m' : Dict Checkpoint) (n : ℕ) : Type 0 where
  pub bounded : IsBounded m'
  pub added : total m' ≡ total m + n
  pub size : length m' ≡ length m

pub stays : (m : Dict Checkpoint) → IsBounded m → Moved m m 0
stays m h = record { bounded = h; added = omega arith; size = refl }

pub moves : (m m' m'' : Dict Checkpoint) (n : ℕ) → Moved m m' 0 → Moved m' m'' n → Moved m m'' n
moves m m' m'' n h k = record {
  bounded = k.bounded;
  added = omega (arith, h.added, k.added);
  size = k.size ∙ h.size;
}

-- A checkpoint is written again with `n` attempts more.
pub set-Moved :
    (k : String) (v : Checkpoint) (m : Dict Checkpoint) (c : Checkpoint) (n : ℕ)
    → get k m ≡ some c
    → k ≡ v.analysis_run_id
    → v.cleanup_attempts ≤ 3
    → v.cleanup_attempts ≡ c.cleanup_attempts + n
    → IsBounded m
    → Moved m (set k v m) n
set-Moved k v m c n e id le more h = record {
  bounded = record {
    distinct = set-AreDistinct k v m h.distinct;
    entries = Entries-set IsEntry k v m (id, le) h.entries;
  };
  added = omega (arith, total-set k v m e, more);
  size = length-set k v m e;
}

-- Each checkpoint of the table is found under its id.
pub values-found :
    (m : Dict Checkpoint) → IsBounded m → All (λ c. get c.analysis_run_id m ≡ some c) (values m)
unfolding get
values-found [] h = tt
values-found ((k, c) ∷ m) h = (
  rw ((eq_iff k c.analysis_run_id).1 h.entries.0.0) refl,
  All-map (λ d. get d.analysis_run_id m ≡ some d) (λ d. get d.analysis_run_id ((k, c) ∷ m) ≡ some d)
      (values m)
      (λ d e. elim (Bool-cases (str_eq k d.analysis_run_id)) [
        | inl t ↦
            let same : get k m ≡ some d =
              subst (λ x. get x m ≡ some d) (sym ((eq_iff k d.analysis_run_id).0 t)) e in
            absurd (none≢some (sym h.distinct.0 ∙ same))
        | inr t ↦ rw t e
      ])
      (values-found m (record { distinct = h.distinct.1; entries = h.entries.1 })),
)

-- The table has the id of the checkpoint, with as many attempts.
pub record Counts (m : Dict Checkpoint) (c : Checkpoint) : Type 0 where
  pub entry : Checkpoint
  pub at : get c.analysis_run_id m ≡ some entry
  pub attempts : entry.cleanup_attempts ≡ c.cleanup_attempts

-- A write that changes no attempts.
set-Counts :
    (v : Checkpoint) (m : Dict Checkpoint) (d : Checkpoint)
    → Counts m v
    → Counts m d
    → Counts (set v.analysis_run_id v m) d
set-Counts v m d h k = elim (Bool-cases (str_eq v.analysis_run_id d.analysis_run_id)) [
  | inl t ↦
      let one : get v.analysis_run_id m ≡ some k.entry =
        subst (λ x. get x m ≡ some k.entry) (sym ((eq_iff v.analysis_run_id d.analysis_run_id).0 t))
          k.at in
      let same : h.entry ≡ k.entry = some_inj (sym h.at ∙ one) in
      record {
        entry = v;
        at = rw (get-set v.analysis_run_id d.analysis_run_id v m, t) refl;
        attempts =
            sym h.attempts
            ∙ subst (λ x. h.entry.cleanup_attempts ≡ x.cleanup_attempts) same refl
            ∙ k.attempts;
      }
  | inr t ↦ record {
    entry = k.entry;
    at = rw (get-set v.analysis_run_id d.analysis_run_id v m, t) k.at;
    attempts = k.attempts;
  }
]

-- The loop that gives exhausted checkpoints up adds no attempt.
pub give_up-Moved :
    (now : ℕ) (cs : List Checkpoint) (m : Dict Checkpoint)
    → IsBounded m
    → All (Counts m) cs
    → Moved m (give_up now cs m) 0
give_up-Moved now [] m h k = stays m h
give_up-Moved now (c ∷ cs) m h k = elim (Bool-cases (is_used_up now c)) [
  | inl t ↦
      let v = given_up now c in
      let entry = Entries-get IsEntry c.analysis_run_id m k.0.at h.entries in
      let one =
        set-Moved c.analysis_run_id v m k.0.entry 0 k.0.at refl
          (omega (arith, entry.1, k.0.attempts)) (omega (arith, k.0.attempts)) h in
      let again : Counts m v = record { entry = k.0.entry; at = k.0.at; attempts = k.0.attempts } in
      let rest =
        give_up-Moved now cs (store_checkpoint v m) one.bounded (
          All-map (Counts m) (Counts (store_checkpoint v m)) cs (λ d. set-Counts v m d again)
            k.1) in
      rw t (moves m (store_checkpoint v m) (give_up now cs (store_checkpoint v m)) 0 one rest)
  | inr t ↦ rw t (give_up-Moved now cs m h k.1)
]

-- What the loop runs over is in the table.
pub values-Counts : (m : Dict Checkpoint) → IsBounded m → All (Counts m) (values m)
values-Counts m h =
    All-map (λ c. get c.analysis_run_id m ≡ some c) (Counts m) (values m)
      (λ c e. record { entry = c; at = e; attempts = refl }) (values-found m h)
