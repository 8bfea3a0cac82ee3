-- ===== src/Cleanup/Orphans/Found/Stores.antt =====
-- infra/pulumi/modules/pve_cleanup.py: the stores that `find_orphans` scans, one after the other.
use rke2_lab.Base.{String, ◌≡◌, sym, ap, ◌∙◌, ◌⊎◌, inl, inr, List, [], ◌∷◌, ◌++◌, arith}
use rke2_lab.Py.Value.{Value}
use rke2_lab.Py.Result.{runtime_error}
use rke2_lab.Py.Effect.{Exception, ok, Env, History, pure, raise, except_runtime}
use rke2_lab.Py.Effect.Returns.{bind-returned, bind_run, try_returned, ok_inj}
use rke2_lab.Cleanup.Client.{PveClient, Content, node_content}
use rke2_lab.Cleanup.Orphans.{Orphan, scan_content, listed_content, scan_stores}

-- The entries that a store was listed with, in a search of these stores that began at `h`: the
-- stores before it had been scanned, and the request for its content was then answered with them.
pub record Listed (env : Env) (c : PveClient) (ticket node : String) (stores : List String)
    (existing : List Value) (h : History) (datastore : String) (entries : List Content)
    : Type 0 where
  pub earlier : List String
  pub later : List String
  pub split : stores ≡ earlier ++ (datastore ∷ later)
  pub scanned : List Orphan
  pub before : History
  pub ran : scan_stores env c ticket node existing earlier [] h ≡ (ok scanned, before)
  pub listing : (node_content env c ticket datastore node before).0 ≡ ok entries

-- A store whose error is caught has no entries.
caught-eq-nil :
    (x : Exception) (h : History) (entries : List Content)
    → (except_runtime (λ text. pure []) x h).0 ≡ ok entries
    → entries ≡ []
unfolding pure raise
caught-eq-nil (runtime_error text) h entries e = sym (ok_inj e)
caught-eq-nil x h entries e = ground (arith, e)

module _ (env : Env) (c : PveClient) (ticket node : String) (existing : List Value) where
  -- The scan of one store, and where the scan of the others begins.
  pub record StoreStep (d : String) (os : List Orphan) (h : History) : Type 0 where
    pub entries : List Content
    pub mid : List Orphan
    pub later : History
    pub listing : (listed_content env c ticket d node h).0 ≡ ok entries
    pub scan :
        (scan_content node d existing entries os (listed_content env c ticket d node h).1).0
        ≡ ok mid
    pub next :
        (todo : List String)
        → scan_stores env c ticket node existing (d ∷ todo) os h
          ≡ scan_stores env c ticket node existing todo mid later

  pub store_step :
      (d : String) (todo : List String) (os more : List Orphan) (h : History)
      → (scan_stores env c ticket node existing (d ∷ todo) os h).0 ≡ ok more
      → StoreStep d os h
  unfolding scan_stores
  store_step d todo os more h e =
      let m = listed_content env c ticket d node in
      let (entries, got, after) = bind-returned m _ h more e in
      let scan = scan_content node d existing entries os in
      let (mid, scanned, rest) =
        bind-returned scan (scan_stores env c ticket node existing todo) (m h).1 more after in
      record {
        entries = entries;
        mid = mid;
        later = (scan (m h).1).1;
        listing = got;
        scan = scanned;
        next = λ todo.
            bind_run m _ h entries got
            ∙ bind_run scan (scan_stores env c ticket node existing todo) (m h).1 mid scanned;
      }

  pub scan_stores-append :
      (xs ys : List String) (os more : List Orphan) (h later : History)
      → scan_stores env c ticket node existing xs os h ≡ (ok more, later)
      → scan_stores env c ticket node existing (xs ++ ys) os h
        ≡ scan_stores env c ticket node existing ys more later
  unfolding scan_stores pure
  scan_stores-append [] ys os more h later e =
      let same : os ≡ more = ok_inj (ap (λ p. p.0) e) in
      ap (λ o. scan_stores env c ticket node existing ys o h) same
      ∙ ap (scan_stores env c ticket node existing ys more) (ap (λ p. p.1) e)
  scan_stores-append (x ∷ xs) ys os more h later e =
      let one = store_step x xs os more h (ap (λ p. p.0) e) in
      one.next (xs ++ ys)
      ∙ scan_stores-append xs ys one.mid more one.later later (sym (one.next xs) ∙ e)

  pub listed_cases :
      (d : String) (h : History) (entries : List Content)
      → (listed_content env c ticket d node h).0 ≡ ok entries
      → ((node_content env c ticket d node h).0 ≡ ok entries) ⊎ (entries ≡ [])
  unfolding listed_content
  listed_cases d h entries e =
      let m = node_content env c ticket d node in
      elim (try_returned m (except_runtime λ text. pure []) h entries e) [
        | inl listing ↦ inl listing
        | inr (x, raised, handled) ↦ inr (caught-eq-nil x (m h).1 entries handled)
      ]
