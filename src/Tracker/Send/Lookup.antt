-- ===== src/Tracker/Send/Lookup.antt =====
-- keep_track.c: the upload stream of a peer after a write to it or to another stream.
use mathlib.Core.Path.{subst}
use bittorrent_with_congesti.Base.{
  refl, Outcome, done, crash, Outcome-cases, ℕ, ◌≡◌, ◌≢◌, sym, ◌∙◌, none, some, arith, get_elem?,
  get_elem?-set_self, get_elem?-set_ne, Option-cases, inl, inr,
}
use bittorrent_with_congesti.Tracker.{Upload, Timers, Tracker, get_upload_index_by_id}
use bittorrent_with_congesti.Tracker.Slots.{
  get_elem?-index_of, index_of-set_self, index_of-set_ne, lt_of_index_of,
}
use bittorrent_with_congesti.Tracker.Send.{
  Smoothing, find_upload, put_upload, drop_acked, count_duplicate, acknowledge,
}

module _ (t : Tracker) (peer_id : ℕ) where
  pub find_upload_of_parts :
      {i : ℕ} {u : Upload}
      → get_upload_index_by_id t peer_id ≡ some i
      → get_elem? t.uploads i ≡ some u
      → find_upload t peer_id ≡ some (i, u)
  unfolding find_upload
  find_upload_of_parts e f = rw (e, find_upload) (rw (f, find_upload))

  find_upload_of_none : get_upload_index_by_id t peer_id ≡ none → find_upload t peer_id ≡ none
  unfolding find_upload
  find_upload_of_none e = rw (e, find_upload)

  pub find_upload-parts :
      {i : ℕ} {u : Upload}
      → find_upload t peer_id ≡ some (i, u)
      → (get_upload_index_by_id t peer_id ≡ some i)
        × (get_elem? t.uploads i ≡ some u)
        × (u.id ≡ peer_id)
  find_upload-parts {i} {u} h = elim (Option-cases (get_upload_index_by_id t peer_id)) [
    | inl e ↦ cc (find_upload_of_none e)
    | inr (j, e) ↦
        let (x, f, owner) = get_elem?-index_of Upload.id peer_id t.uploads e in
        ground (arith, find_upload_of_parts e f)
  ]

pub find_upload-put_self :
    (t : Tracker) (peer_id : ℕ) {i : ℕ} {u : Upload} (u' : Upload)
    → find_upload t peer_id ≡ some (i, u)
    → u'.id ≡ u.id
    → find_upload (put_upload t i u') peer_id ≡ some (i, u')
find_upload-put_self t peer_id {i} {u} u' h same =
    let (e, f, owner) = find_upload-parts t peer_id h in
    find_upload_of_parts (put_upload t i u') peer_id
      (index_of-set_self Upload.id peer_id t.uploads u' e (same ∙ owner))
      (get_elem?-set_self t.uploads i u' (lt_of_index_of Upload.id peer_id t.uploads e))

pub find_upload-put_ne :
    (t : Tracker) (peer_id other : ℕ) {i : ℕ} {u : Upload} (u' : Upload)
    → find_upload t peer_id ≡ some (i, u)
    → u'.id ≡ u.id
    → other ≢ peer_id
    → find_upload (put_upload t i u') other ≡ find_upload t other
find_upload-put_ne t peer_id other {i} {u} u' h same ne =
    let (e, f, owner) = find_upload-parts t peer_id h in
    let moved = index_of-set_ne Upload.id peer_id other t.uploads u' e (same ∙ owner) ne in
    elim (Option-cases (get_upload_index_by_id t other)) [
      | inl none_there ↦
          find_upload_of_none (put_upload t i u') other (moved ∙ none_there)
          ∙ sym (find_upload_of_none t other none_there)
      | inr (j, there) ↦
          let (x, g, owner') = get_elem?-index_of Upload.id other t.uploads there in
          let apart : i ≢ j = λ same_index. ne (ground arith) in
          find_upload_of_parts (put_upload t i u') other (moved ∙ there)
            (get_elem?-set_ne t.uploads u' apart ∙ g)
          ∙ sym (find_upload_of_parts t other there g)
    ]

-- what a result of `acknowledge` must be like
abbrev Keeps : Upload → Outcome (Timers × Upload × ℕ) → Type 0
Keeps u (done (_, u', _)) = u'.id ≡ u.id
Keeps u (crash c) = Unit

module _ (sm : Smoothing) (tm : Timers) (u : Upload) (seq sampled now : ℕ) where
  acknowledge-Keeps : Keeps u (acknowledge sm tm u seq sampled now)
  unfolding acknowledge
  acknowledge-Keeps = elim (Outcome-cases (drop_acked sm sampled seq tm 0 u.queue)) [
    | inr (c, f) ↦ rw f tt
    | inl ((tm', k, rest), f) ↦ elim (Outcome-cases (count_duplicate tm' u seq rest)) [
      | inr (c, g) ↦ rw f (rw g tt)
      | inl (r, g) ↦ rw f (rw g refl)
    ]
  ]

  -- A stream stays its peer's.
  pub id-acknowledge :
      {tm' : Timers} {u' : Upload} {count : ℕ}
      → acknowledge sm tm u seq sampled now ≡ done (tm', u', count)
      → u'.id ≡ u.id
  id-acknowledge e = subst (Keeps u) e acknowledge-Keeps
