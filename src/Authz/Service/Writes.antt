-- ===== src/Authz/Service/Writes.antt =====
-- What the writes that take no owner away do to the rows of a tenant.
use std.Path.{subst}
use ai_kubernetes_troublesho.Prelude.{
  ℕ, ◌≤◌, ◌≡◌, refl, sym, inl, inr, String, false, none, some, List, [], ◌∷◌, arith, string_eq,
  eq_iff, Option-cases,
}
use ai_kubernetes_troublesho.Prelude.Dict.{get, put, hits, get-put, tally-put}
use ai_kubernetes_troublesho.Prelude.Exec.{◌>>=◌}
use ai_kubernetes_troublesho.Authz.Models.{owner}
use ai_kubernetes_troublesho.Authz.Store.{
  Row, Members, Tenants, File, missing, unreadable, readable, read, members_of, write, row_or_new,
  upsert, store_suspended, touch, seen_row, stored_role,
}
use ai_kubernetes_troublesho.Authz.Store.View.{role_of, owner_row, RoleReads, Reads-get}
use ai_kubernetes_troublesho.Authz.Service.Overlap.{
  Write, sight, promote, restore, write_one, write_all,
}
use ai_kubernetes_troublesho.Authz.Service.Governed.{
  IsGoverned, IsGovernedFile, Spare, put-IsGoverned, members_of-put, granted, granted_row-RoleReads,
  granted_owner,
}

pub put-Spare :
    (subject key : String) (row : Row) (members : Members)
    → hits owner_row (get key members) ≤ hits owner_row (some row)
    → Spare subject members
    → Spare subject (put key row members)
put-Spare subject key row members le spare = ground (
  arith,
  eq_iff key subject,
  get-put key subject row members,
  tally-put owner_row key row members,
)

-- There is an owner besides `subject`, in a file that can be read.
abbrev pub SpareFile : String → String → File → Type 0
SpareFile tenant subject missing = ⊥
SpareFile tenant subject unreadable = ⊥
SpareFile tenant subject (readable tenants) = Spare subject (members_of tenant tenants)

-- The file after a write that takes no owner away: as it was, or with one row put in it.
pub data Grown (tenant : String) (tenants : Tenants) : File → Type 0 where
  same : Grown tenant tenants (readable tenants)
  added :
      (key : String) (row : Row)
      → RoleReads row
      → hits owner_row (get key (members_of tenant tenants)) ≤ hits owner_row (some row)
      → Grown tenant tenants
          (readable (put tenant (put key row (members_of tenant tenants)) tenants))

module _ (tenant : String) (tenants : Tenants) where
  pub grown-IsGoverned :
      (file : File)
      → IsGoverned (members_of tenant tenants)
      → Grown tenant tenants file
      → IsGovernedFile tenant file
  grown-IsGoverned _ g same = g
  grown-IsGoverned _ g (added key row reads le) =
      rw members_of-put (put-IsGoverned key row (members_of tenant tenants) g reads (inr (inr le)))

  pub grown-SpareFile :
      (subject : String) (file : File)
      → Spare subject (members_of tenant tenants)
      → Grown tenant tenants file
      → SpareFile tenant subject file
  grown-SpareFile subject _ h same = h
  grown-SpareFile subject _ h (added key row reads le) =
      rw members_of-put (put-Spare subject key row (members_of tenant tenants) le h)

  restored_none :
      (subject : String) (now : ℕ)
      → get subject (members_of tenant tenants) ≡ none
      → (store_suspended tenant subject false now (readable tenants)).1 ≡ readable tenants
  unfolding store_suspended read ◌>>=◌
  restored_none subject now e = ground (arith, e)

  restored_some :
      (subject : String) (now : ℕ) (row : Row)
      → get subject (members_of tenant tenants) ≡ some row
      → (store_suspended tenant subject false now (readable tenants)).1
        ≡ readable (
            put tenant
              (put subject
                (record row { suspended = false; updated_at = now })
                (members_of tenant tenants))
              tenants)
  unfolding store_suspended read write ◌>>=◌
  restored_some subject now row e = ground (arith, e)

  module _ (g : IsGoverned (members_of tenant tenants)) where
    sight-Grown :
        (subject email : String) (now : ℕ)
        → Grown tenant tenants (touch tenant subject email now (readable tenants)).1
    unfolding touch read write seen_row role_of stored_role ◌>>=◌
    sight-Grown subject email now =
        let old = get subject (members_of tenant tenants) in
        added subject (seen_row email now (row_or_new now old))
          (elim (Option-cases old) [
            | inl e ↦ ground (arith, e)
            | inr (row, e) ↦
                ground (arith, e, Reads-get subject (members_of tenant tenants) row g.reads e)
          ])
          (ground arith)

    promote-Grown :
        (subject actor email : String) (now : ℕ)
        → Grown tenant tenants (upsert tenant subject owner email actor now (readable tenants)).1
    unfolding upsert read write ◌>>=◌
    promote-Grown subject actor email now =
        let old = get subject (members_of tenant tenants) in
        added subject (granted owner email actor now old)
          (granted_row-RoleReads owner email actor now old)
          (granted_owner owner email actor now old refl)

    restore-Grown :
        (subject : String) (now : ℕ)
        → Grown tenant tenants (store_suspended tenant subject false now (readable tenants)).1
    unfolding role_of
    restore-Grown subject now = elim (Option-cases (get subject (members_of tenant tenants))) [
      | inl e ↦ subst (Grown tenant tenants) (sym (restored_none subject now e)) same
      | inr (row, e) ↦ subst (Grown tenant tenants) (sym (restored_some subject now row e)) (
          added subject (record row { suspended = false; updated_at = now })
            (Reads-get subject (members_of tenant tenants) row g.reads e) (rw e (ground arith)))
    ]

    write_one-Grown : (w : Write) → Grown tenant tenants (write_one tenant w (readable tenants))
    unfolding write_one
    write_one-Grown (sight subject email now) = sight-Grown subject email now
    write_one-Grown (promote subject actor email now) = promote-Grown subject actor email now
    write_one-Grown (restore subject now) = restore-Grown subject now

pub write_one-IsGoverned :
    (tenant : String) (w : Write) (file : File)
    → IsGovernedFile tenant file
    → IsGovernedFile tenant (write_one tenant w file)
write_one-IsGoverned tenant w missing g = absurd g
write_one-IsGoverned tenant w unreadable g = absurd g
write_one-IsGoverned tenant w (readable tenants) g =
    grown-IsGoverned tenant tenants _ g (write_one-Grown tenant tenants g w)

pub write_all-IsGoverned :
    (tenant : String) (writes : List Write) (file : File)
    → IsGovernedFile tenant file
    → IsGovernedFile tenant (write_all tenant writes file)
unfolding write_all
write_all-IsGoverned tenant [] file g = g
write_all-IsGoverned tenant (w ∷ ws) file g =
    write_all-IsGoverned tenant ws (write_one tenant w file) (write_one-IsGoverned tenant w file g)

write_one-SpareFile :
    (tenant subject : String) (w : Write) (file : File)
    → IsGovernedFile tenant file
    → SpareFile tenant subject file
    → SpareFile tenant subject (write_one tenant w file)
write_one-SpareFile tenant subject w missing g h = absurd g
write_one-SpareFile tenant subject w unreadable g h = absurd g
write_one-SpareFile tenant subject w (readable tenants) g h =
    grown-SpareFile tenant tenants subject _ h (write_one-Grown tenant tenants g w)

-- An owner besides `subject` stays.
pub write_all-SpareFile :
    (tenant subject : String) (writes : List Write) (file : File)
    → IsGovernedFile tenant file
    → SpareFile tenant subject file
    → SpareFile tenant subject (write_all tenant writes file)
unfolding write_all
write_all-SpareFile tenant subject [] file g h = h
write_all-SpareFile tenant subject (w ∷ ws) file g h =
    write_all-SpareFile tenant subject ws (write_one tenant w file)
      (write_one-IsGoverned tenant w file g) (write_one-SpareFile tenant subject w file g h)
