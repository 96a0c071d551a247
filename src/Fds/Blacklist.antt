-- ===== src/Fds/Blacklist.antt =====
-- The blacklist methods of detector.py on the table of entries.
use moaje_work.Prelude.{
  ℕ, ◌+◌, ◌≡◌, refl, true, false, List, [], ◌∷◌, String, arith, any, count, update_where, some,
}
use moaje_work.Database.{Environment, ok, err, multiple_results_found}
use moaje_work.Fds.{BlacklistEntry, BlacklistReason}
use moaje_work.Fds.Detector.{
  is_active_entry, get_blacklist_status, register_blacklist, release_blacklist,
}

count_of_any :
    (user : ℕ) (entries : List BlacklistEntry)
    → any (is_active_entry user) entries ≡ false
    → count (is_active_entry user) entries ≡ 0
count_of_any user [] h = refl
count_of_any user (e ∷ entries) h = ground (arith, count_of_any user entries)

module _ (env : Environment) (user : ℕ) where
  count-register :
      (reason : BlacklistReason) (description : String) (entries : List BlacklistEntry)
      → count (is_active_entry user) (register_blacklist env user reason description entries)
        ≡ count (is_active_entry user) entries + 1
  unfolding register_blacklist
  count-register reason description [] = ground arith
  count-register reason description (e ∷ entries) =
      ground (arith, count-register reason description entries)

  count-release :
      (entries : List BlacklistEntry)
      → count (is_active_entry user) (
          update_where
            (is_active_entry user)
            (λ e. record e { is_active = false; released_at = some env.now })
            entries)
        ≡ 0
  count-release [] = refl
  count-release (e ∷ entries) = ground (arith, count-release entries)

  -- Releasing a user clears every active entry: the status is then false, whatever was registered.
  pub release_clears :
      (entries : List BlacklistEntry)
      → get_blacklist_status user (release_blacklist env user entries).1 ≡ ok false
  unfolding get_blacklist_status release_blacklist
  release_clears entries = ground (arith, count-release entries, count_of_any user entries)

  -- Registering a user whose status can be read as free blocks the user. Registering a user who is
  -- blocked already leaves two active entries, and the status can then no longer be read.
  pub register_status :
      (reason : BlacklistReason) (description : String) (entries : List BlacklistEntry)
      → (get_blacklist_status user entries ≡ ok false
          → get_blacklist_status user (register_blacklist env user reason description entries)
            ≡ ok true)
        × (get_blacklist_status user entries ≡ ok true
            → get_blacklist_status user (register_blacklist env user reason description entries)
              ≡ err multiple_results_found)
  unfolding get_blacklist_status
  register_status reason description entries =
      let c = count-register reason description entries in
      (λ h. ground (arith, c), λ h. ground (arith, c))
