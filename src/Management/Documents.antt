-- ===== src/Management/Documents.antt =====
-- Looking up documents after a session has written one.
use cellixjs.Base.{
  ◌≡◌, refl, arith, Bool, true, false, List, [], ◌∷◌, String, some, find, ◌==◌, eq_refl, eq_sound,
  if◌then◌else◌,
}
use cellixjs.Community.Members.State.{Member, MemberProps}
use cellixjs.Management.Source.{doc_has_id, put_document, delete_document, write_document}

pub put_is_found :
    (p : MemberProps) (docs : List MemberProps)
    → find (doc_has_id p.id) (put_document p docs) ≡ some p
put_is_found p [] = ground (arith, eq_refl p.id)
put_is_found p (q ∷ docs) = ground (arith, put_is_found p docs, eq_refl p.id)

pub others_stay_put :
    (p : MemberProps) (other : String) (docs : List MemberProps)
    → (p.id == other) ≡ false
    → find (doc_has_id other) (put_document p docs) ≡ find (doc_has_id other) docs
others_stay_put p other [] h = ground arith
others_stay_put p other (q ∷ docs) h =
    ground
      (arith, others_stay_put p other docs h, eq_sound q.id p.id, eq_sound q.id other, eq_refl p.id)

pub others_stay_deleted :
    (id other : String) (docs : List MemberProps)
    → (id == other) ≡ false
    → find (doc_has_id other) (delete_document id docs) ≡ find (doc_has_id other) docs
others_stay_deleted id other [] h = refl
others_stay_deleted id other (q ∷ docs) h =
    ground (
      arith,
      others_stay_deleted id other docs h,
      eq_sound q.id id,
      eq_sound q.id other,
      eq_refl id,
    )

-- A write of one object leaves the documents with other ids.
pub others_stay_written :
    (m : Member) (other : String) (docs : List MemberProps)
    → (m.props.id == other) ≡ false
    → find (doc_has_id other) (write_document m docs) ≡ find (doc_has_id other) docs
others_stay_written m other docs h = go m.root.is_deleted
  where
    go :
        (b : Bool)
        → find
            (doc_has_id other)
            (if b then delete_document m.props.id docs else put_document m.props docs)
          ≡ find (doc_has_id other) docs
    go true = others_stay_deleted m.props.id other docs h
    go false = others_stay_put m.props other docs h
