-- ===== src/Downloads/Laws.antt =====
-- What a SnapshotDownload comes to.
use backrest_operator.Prelude.{
  ℕ, ◌+◌, ◌-◌, ◌*◌, ◌≤◌, ◌<◌, ◌≡◌, ◌≢◌, refl, if◌then◌else◌, ◌⊎◌, inl, inr, Bytes, true, false,
  Bool-cases, ltb, Option, none, some, ◌∷◌, is_empty, eq_refl, arith,
}
use backrest_operator.Api.{Key, SnapshotDownload}
use backrest_operator.Filters.{object_allowed}
use backrest_operator.Backup.Poll.{finished, come_back}
use backrest_operator.Effects.{
  Result, ok, err, Error, Event, Trace, M, ask, tell, on_result, Outcome,
}
use backrest_operator.Backup.Schedule.{second}
use backrest_operator.Mcp.Calls.{DownloadLink}
use backrest_operator.Downloads.{
  Downloads, Link, expiry_text, parsed, link_of, set_ready, refresh_of, mint, mint_failed, minted,
  make_link, come_back_before, margin, stored_download, set_pending, at_least_minute, while_fresh,
  reconcile_download,
}

module _ (w : Downloads) where
  -- what a link with an expiry, or with none, is once it is written
  abbrev pub made : Option ℕ → Link
  made none = Link.lasting
  made (some e) = Link.until e

  -- `format_time` cuts to what `parse_time` reads back, and gives no empty text
  abbrev pub RoundTrips : Option ℕ → Type 0
  RoundTrips none = Unit
  RoundTrips (some e) =
      (w.parse_time (w.format_time e) ≡ some e) × (is_empty (w.format_time e) ≡ false)

  expiry-made :
      (e : Option ℕ)
      → RoundTrips e
      → (if is_empty (expiry_text w e)
          then Link.lasting
          else parsed w (w.parse_time (expiry_text w e)))
        ≡ made e
  expiry-made none h = refl
  expiry-made (some e) (reads, full) = rw (full, reads) refl

  link_of-set_ready :
      (d : SnapshotDownload) (l : DownloadLink)
      → is_empty l.download_url ≡ false
      → RoundTrips l.expires
      → link_of w (set_ready w d (refresh_of d) l) ≡ made l.expires
  unfolding link_of set_ready
  link_of-set_ready d l url trips = rw (url, eq_refl (refresh_of d)) (expiry-made l.expires trips)

  -- Nothing but the clock is asked while the link has more than two minutes left, and the object comes
  -- back two minutes before the end; then a link is made again. A link without an end stays for good.
  abbrev pub IsKept : SnapshotDownload → Option ℕ → Trace → Outcome × Trace → Type 0
  IsKept d none t r = r ≡ (finished, t)
  IsKept d (some e) t r =
      let now = w.env.clock (Event.read_clock ∷ t) in
      let later = w.env.clock (Event.read_clock ∷ Event.read_clock ∷ t) in
      ((now + 120 * second < e)
        × (r ≡ (come_back (e - 120 * second - later), Event.read_clock ∷ Event.read_clock ∷ t)))
      ⊎ (e ≤ now + 120 * second) × (r ≡ make_link w d (Event.read_clock ∷ t))

  while_fresh-IsKept :
      (d : SnapshotDownload) (e : Option ℕ) (t : Trace) → IsKept d e t (while_fresh w d (made e) t)
  unfolding while_fresh ask
  while_fresh-IsKept d none t = refl
  while_fresh-IsKept d (some e) t =
      elim (Bool-cases (ltb (w.env.clock (Event.read_clock ∷ t) + margin) e)) [
        | inl h ↦ inl (ground arith, rw h refl)
        | inr h ↦ inr (ground arith, rw h refl)
      ]

  -- A link that was made is kept: when a reconcile reads the object with the status that a successful
  -- mint wrote, and with the same refresh annotation, it makes no request but its clock readings
  -- while the link has more than two minutes left, and comes back when two minutes are left; it makes
  -- a link again when no more than two minutes are left; and it does nothing for good when the link
  -- does not expire. The link has a url, its expiry survives its text, and the object is watched.
  pub reconcile_download-IsKept :
      (key : Key) (d : SnapshotDownload) (l : DownloadLink) (t : Trace)
      → is_empty l.download_url ≡ false
      → RoundTrips l.expires
      → w.download (Event.get_download key ∷ t) ≡ ok (set_ready w d (refresh_of d) l)
      → object_allowed w.env.watch_namespaces w.env.watch_label_selector d.metadata.namespace
          d.metadata.labels
        ≡ true
      → IsKept
          (set_ready w d (refresh_of d) l)
          l.expires
          (Event.get_download key ∷ t)
          (reconcile_download w key t)
  unfolding reconcile_download set_ready ask
  reconcile_download-IsKept key d l t url trips read watched =
      rw (read, watched, link_of-set_ready d l url trips)
        (while_fresh-IsKept (set_ready w d (refresh_of d) l) l.expires (Event.get_download key ∷ t))

  -- An outcome is an error, or rests: the object comes back on a change only, or in half a minute
  -- at least.
  abbrev IsPaced : Outcome → Type 0
  IsPaced o = (o.error ≢ none) ⊎ (o.after ≡ 0) ⊎ (30 * second ≤ o.after)

  minute-half : (n : ℕ) → 30 * second ≤ at_least_minute w n
  minute-half n = ground arith

  before-IsPaced : (e : Option ℕ) (t : Trace) → IsPaced (come_back_before w e t).0
  unfolding come_back_before ask
  before-IsPaced none t = inr (inl refl)
  before-IsPaced (some e) t =
      inr (inr (minute-half (e - margin - w.env.clock (Event.read_clock ∷ t))))

  result-IsPaced :
      {A : Type 0} (r : Result A) (f : Error → M Outcome) (g : A → M Outcome) (t : Trace)
      → ((e : Error) → IsPaced (f e t).0)
      → ((a : A) → IsPaced (g a t).0)
      → IsPaced (on_result r f g t).0
  result-IsPaced (err e) f g t hf hg = hf e
  result-IsPaced (ok a) f g t hf hg = hg a

  minted-IsPaced :
      (d : SnapshotDownload) (refresh : Bytes) (l : DownloadLink) (t : Trace)
      → IsPaced (minted w d refresh l t).0
  unfolding minted ask
  minted-IsPaced d refresh l t =
      let sent = Event.update_download_status (set_ready w d refresh l) ∷ t in
      result-IsPaced (w.download sent) _ _ sent (λ e. inl (λ h. cc))
        (λ c. before-IsPaced l.expires sent)

  failed-IsPaced : (d : SnapshotDownload) (e : Error) (t : Trace) → IsPaced (mint_failed w d e t).0
  unfolding mint_failed tell
  failed-IsPaced d e t = inr (inr (omega arith))

  -- A reconcile that mints a link does not spin: it ends with an error, which is retried with a
  -- growing delay, or does not come back by itself, or comes back in half a minute at least.
  make_link-IsPaced : (d : SnapshotDownload) (t : Trace) → IsPaced (make_link w d t).0
  unfolding make_link ask
  make_link-IsPaced d t =
      let sent = Event.update_download_status (set_pending w d) ∷ t in
      let kept = stored_download w (set_pending w d) (w.download sent) in
      let got = mint w kept sent in
      result-IsPaced got.0 _ _ got.1 (λ e. failed-IsPaced kept e got.1)
        (λ l. minted-IsPaced kept (refresh_of d) l got.1)
