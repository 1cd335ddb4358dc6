-- ===== src/Management/Finding.antt =====
-- A logic for callbacks that read the collection and then save one member, for documents whose
-- accounts are apart.
use cellixjs.Base.{
  ◌≡◌, ◌∙◌, sym, ap, arith, Bool, true, false, List, [], ◌∷◌, String, some, Exec, done, find, ◌==◌,
  if◌then◌else◌, subst, ◌>>=◌, guard, Error,
}
use cellixjs.UnitOfWork.Transaction.{Attempts}
use cellixjs.Community.Members.State.{Member, MemberProps}
use cellixjs.Management.Source.{
  Host, Source, get_by_id, to_domain, call, save, doc_has_id, put_document, delete_document,
  write_document, transaction, session_scope, Session,
}
use cellixjs.Management.Saving.{Reads, Keeps}
use cellixjs.Management.Returns.{
  bind_done, get_by_id-done, call-done, guard-done, save-done, Reads-done, transaction-done,
}
use cellixjs.Management.Apart.{Apart}

abbrev pub AllApart : List MemberProps → Type 0
AllApart [] = Unit {0}
AllApart (p ∷ docs) = Apart p.accounts × AllApart docs

module _ (docs : List MemberProps) where
  -- The collection is `docs`, and the session has written nothing.
  abbrev pub At : Session → Type 0
  At s = (s.source.members ≡ docs) × (s.documents ≡ docs)

  -- It returns `a` with `P a` where the collection is `docs`, and has written nothing.
  abbrev pub Finds : {A : Type 0} → (A → Type 0) → Exec Session A → Type 0
  Finds {A} P f = (s t : Session) (a : A) → At s → f s ≡ done a t → At t × P a

  -- The session would leave accounts apart where the collection was `docs`.
  abbrev pub LeavesIn : {A : Type 0} → Exec Session A → Type 0
  LeavesIn {A} f = (s t : Session) (a : A) → At s → f s ≡ done a t → AllApart t.documents

  -- It leaves accounts apart where the collection was `docs`.
  abbrev pub Leaves : {A : Type 0} → Exec Source A → Type 0
  Leaves {A} f = (s t : Source) (a : A) → s.members ≡ docs → f s ≡ done a t → AllApart t.members

put-AllApart :
    (p : MemberProps) (docs : List MemberProps)
    → Apart p.accounts
    → AllApart docs
    → AllApart (put_document p docs)
put-AllApart p [] h k = (h, tt)
put-AllApart p (q ∷ docs) h k = go (q.id == p.id) (put-AllApart p docs h k.1)
  where
    go :
        (b : Bool)
        → AllApart (put_document p docs)
        → AllApart (if b then p ∷ docs else q ∷ put_document p docs)
    go true rest = (h, k.1)
    go false rest = (k.0, rest)

delete-AllApart :
    (id : String) (docs : List MemberProps) → AllApart docs → AllApart (delete_document id docs)
delete-AllApart id [] k = tt
delete-AllApart id (q ∷ docs) k = go (q.id == id) (delete-AllApart id docs k.1)
  where
    go :
        (b : Bool)
        → AllApart (delete_document id docs)
        → AllApart (if b then docs else q ∷ delete_document id docs)
    go true rest = k.1
    go false rest = (k.0, rest)

find-Apart :
    (id : String) (docs : List MemberProps) (p : MemberProps)
    → find (doc_has_id id) docs ≡ some p
    → AllApart docs
    → Apart p.accounts
find-Apart id [] p h k = ground arith
find-Apart id (q ∷ docs) p h k = go (q.id == id) h (λ e. find-Apart id docs p e k.1)
  where
    go :
        (b : Bool)
        → (if b then some q else find (doc_has_id id) docs) ≡ some p
        → (find (doc_has_id id) docs ≡ some p → Apart p.accounts)
        → Apart p.accounts
    go true e rest = subst Apart (ground arith) k.0
    go false e rest = rest e

write-AllApart :
    (m : Member) (docs : List MemberProps)
    → Apart m.props.accounts
    → AllApart docs
    → AllApart (write_document m docs)
write-AllApart m docs h k = go m.root.is_deleted
  where
    go :
        (b : Bool)
        → AllApart (if b then delete_document m.props.id docs else put_document m.props docs)
    go true = delete-AllApart m.props.id docs k
    go false = put-AllApart m.props docs h k

module _ {A B : Type 0} (docs : List MemberProps) where
  pub chain :
      (P : A → Type 0) (f : Exec Session A) (g : A → Exec Session B)
      → Finds docs P f
      → ((a : A) → P a → LeavesIn docs (g a))
      → LeavesIn docs (f >>= g)
  chain P f g h k s t b at_docs returned =
      let (a, (u, (e, e1))) = bind_done f g s t b returned in
      let (at_u, p) = h s u a at_docs e in k a p u t b at_u e1

module _ {A : Type 0} (docs : List MemberProps) where
  pub Finds-Reads : (f : Exec Session A) → Reads f → Finds docs (λ a. Unit {0}) f
  Finds-Reads f r s t a at_docs e = (subst (At docs) (sym (Reads-done f s t a r e)) at_docs, tt)

  pub Leaves-transaction :
      (attempts : Attempts) (f : Exec Session A)
      → Keeps f
      → LeavesIn docs f
      → Leaves docs (transaction session_scope attempts f)
  Leaves-transaction attempts f k h s t a at_docs e =
      let (before, (same, (none_written, (after, (returned, is_t))))) =
        transaction-done attempts f s t a k e in
      subst AllApart (sym is_t) (h before after a (same ∙ at_docs, none_written ∙ at_docs) returned)

module _ (docs : List MemberProps) where
  -- What is known of the object of a document.
  abbrev pub Loaded : String → Member → Type 0
  Loaded id m =
      Apart m.props.accounts
      × ((p : MemberProps) × ((find (doc_has_id id) docs ≡ some p) × (m ≡ to_domain p)))

  pub Finds-member : (id : String) → AllApart docs → Finds docs (Loaded id) (get_by_id id)
  Finds-member id k s t m at_docs e =
      let (p, (there, (is_p, same))) = get_by_id-done id s t m e in
      let there_docs : find (doc_has_id id) docs ≡ some p =
        ap (find (doc_has_id id)) (sym at_docs.0) ∙ there in
      (
        subst (At docs) (sym same) at_docs,
        (
          subst (λ (x : Member). Apart x.props.accounts) (sym is_p)
              (find-Apart id docs p there_docs k),
          (p, (there_docs, is_p)),
        ),
      )

  pub Finds-true : (b : Bool) (e : Error) → Finds docs (λ u. b ≡ true) (guard (λ s. b) e)
  Finds-true b e s t a at_docs h =
      let (is_true, same) = guard-done (λ s. b) e s t h in
      (subst (At docs) (sym same) at_docs, is_true)

  pub Finds-call :
      (P : Member → Type 0) (method : Exec Member (Unit {0})) (m : Member)
      → ((u : Member) → method m ≡ done tt u → P u)
      → Finds docs P (call method m)
  Finds-call P method m k s t u at_docs e =
      let (called, same) = call-done method m u s t e in
      (subst (At docs) (sym same) at_docs, k u called)

  pub leaves_save :
      (host : Host) (m : Member)
      → AllApart docs
      → Apart m.props.accounts
      → LeavesIn docs (save host m)
  leaves_save host m k h s t q at_docs e =
      let (is_q, wrote) = save-done host m s t q e in
      subst AllApart (sym (wrote ∙ ap (write_document m) at_docs.1)) (write-AllApart m docs h k)
