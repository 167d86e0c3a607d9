-- ===== src/Projects/Reads/Tenants.antt =====
-- What a page of projects shows (packages/database/src/control-plane.ts).
use text.Mathlib.Text.{◌==◌ as str_eq}
use page2web_mcp.Common.{
  ℕ, zero, suc, ◌≤◌, String, ◌≡◌, true, false, ◌||◌, not, Option, none, some, List, [], ◌∷◌, ltb,
  length, get_or, arith, All, All-filter, filter-All, ok, Result, ◌>>=◌, subst,
}
use page2web_mcp.Common.Sort.{All-sort}
use page2web_mcp.Common.Dict.{values}
use page2web_mcp.Common.Throwing.Ensures.{guard_inv, or_raise_inv}
use page2web_mcp.Workflow.Types.{Actor, Project}
use page2web_mcp.Release.Tables.{take}
use page2web_mcp.Projects.Types.{ProjectError, ProjectTables}
use page2web_mcp.Projects.Reads.{
  position_le, position_of, own, list_projects, Page, max_page_size, past, page_of,
  list_projects_page,
}

take-All : {A : Type 0} (P : A → Type 0) (n : ℕ) (xs : List A) → All P xs → All P (take n xs)
unfolding take
take-All P zero xs h = tt
take-All P (suc n) [] h = tt
take-All P (suc n) (x ∷ xs) h = (h.0, take-All P n xs h.1)

length-take-le : {A : Type 0} (n : ℕ) (xs : List A) → length (take n xs) ≤ n
unfolding take
length-take-le zero xs = omega arith
length-take-le (suc n) [] = omega arith
length-take-le (suc n) (x ∷ xs) = omega (arith, length-take-le n xs)

module _ (actor : Actor) where
  abbrev pub IsOwn : Project → Type 0
  IsOwn p = str_eq p.organization_id actor.organization_id ≡ true

  list_projects-All : (s : ProjectTables) → All IsOwn (list_projects actor s)
  unfolding list_projects
  list_projects-All s =
      All-sort (λ a b. position_le (position_of a) (position_of b)) IsOwn (own actor s)
        (filter-All (λ p. str_eq p.organization_id actor.organization_id)
          (values s.repository.projects))

  past-All : (c : Option (ℕ × String)) (ps : List Project) → All IsOwn ps → All IsOwn (past c ps)
  past-All none ps h = h
  past-All (some c) ps h = All-filter IsOwn (λ p. not (position_le (position_of p) c)) ps h

  -- A page has projects of the actor's organisation only, and at most a hundred.
  pub record IsOwnPage (page : Page) : Type 0 where
    pub all_own : All IsOwn page.projects
    pub size : length page.projects ≤ 100

  page-IsOwnPage :
      (n : ℕ) (ps : List Project)
      → All IsOwn ps
      → (ltb n 1 || ltb max_page_size n) ≡ false
      → IsOwnPage (page_of n ps)
  unfolding page_of take
  page-IsOwnPage n ps h small =
      let bound : n ≤ 100 = ground arith in
      record { all_own = take-All IsOwn n ps h; size = omega (arith, length-take-le n ps, bound) }

  page_value : {a b : Page} → ◌≡◌ {A = Result ProjectError Page} (ok a) (ok b) → a ≡ b
  page_value e = cc

  -- Every page that is returned, whatever the limit and the cursor, shows projects of the actor's
  -- organisation only, and at most a hundred of them.
  pub list_projects_page-IsOwnPage :
      (limit : Option ℕ) (cursor : Option (Option (ℕ × String))) (s : ProjectTables) (page : Page)
      → (list_projects_page actor limit cursor s).0 ≡ ok page
      → IsOwnPage page
  unfolding list_projects_page ◌>>=◌
  list_projects_page-IsOwnPage limit none s page e =
      let n = get_or limit 50 in
      let h = guard_inv (ltb n 1 || ltb max_page_size n) _ _ s page e in
      subst IsOwnPage (page_value h.1)
        (page-IsOwnPage n (list_projects actor s) (list_projects-All s) h.0)
  list_projects_page-IsOwnPage limit (some cursor) s page e =
      let n = get_or limit 50 in
      let h = guard_inv (ltb n 1 || ltb max_page_size n) _ _ s page e in
      let c = or_raise_inv cursor _ _ s page h.1 in
      subst IsOwnPage (page_value c.2) (
        page-IsOwnPage n (past (some c.0) (list_projects actor s))
          (past-All (some c.0) (list_projects actor s) (list_projects-All s)) h.0)
