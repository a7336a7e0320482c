-- ===== src/Client/Mint/Streamed.antt =====
-- What a stream link stands for, and that it takes no restore.
use backrest_operator.Prelude.{
  ℕ, suc, ◌≡◌, refl, sym, ap, ◌∙◌, Bytes, bytes, Bool, true, false, ◌⊎◌, inl, inr, Option, List, [],
  ◌∷◌, is_empty, if◌then◌else◌, In, arith,
}
use backrest_operator.Prelude.Int.{ℤ, pos, is_positive, eq_int, eq_int_iff}
use backrest_operator.Effects.{ok, Trace, ask}
use backrest_operator.Effects.Keeps.{Keeps, Kind, kind, Ignores, Keeps-pure, Keeps-if, keeps_rules}
use backrest_operator.Effects.Yields.{
  Before, Yields, Yields-err, Yields-if, Yields-then, Yields-to, Yields-pure, Yields-value,
}
use backrest_operator.Mcp.Calls.{Mint, Args}
use backrest_operator.Client.Posts.{Object}
use backrest_operator.Client.Operations.{Remote, id_of, indexed, get_operations, get_download_url}
use backrest_operator.Client.Operations.Yields.{Listed}
use backrest_operator.Client.Mint.{
  Minted, with_path, wants_restore, link_to, link_at, index_id, link_to_index, mint_stream,
  mint_download_url,
}

abbrev pub counted : Kind → ℕ → ℕ
counted Kind.starts_restore n = suc n
counted _ n = n

-- how many restores were asked for
unfoldable pub restore_count : Trace → ℕ
restore_count [] = 0
restore_count (e ∷ t) = counted (kind e) (restore_count t)

module _ (w : Remote) (decode : Bytes → Option Bytes) (claim : Bytes → Option ℤ) where
  -- an operation of the list that indexes a snapshot
  abbrev Indexes : ℤ → List Object → Type 0
  Indexes id ops = (o : Object) × In o ops × (indexed w o ≡ true) × (id_of w o ≡ id)

  step-lem :
      (b c : Bool) (o : Object) (op skipped later : ℤ) (ops : List Object)
      → indexed w o ≡ b
      → Indexes skipped ops ⊎ (skipped ≡ op)
      → Indexes later ops ⊎ (later ≡ id_of w o)
      → let r = if b then (if c then id_of w o else later) else skipped in
        Indexes r (o ∷ ops) ⊎ (r ≡ op)
  step-lem true true o op skipped later ops e s l = inl (o, In.head, e, refl)
  step-lem true false o op skipped later ops e s (inl (p, i, x, q)) = inl (p, In.tail i, x, q)
  step-lem true false o op skipped later ops e s (inr q) = inl (o, In.head, e, sym q)
  step-lem false c o op skipped later ops e (inl (p, i, x, q)) l = inl (p, In.tail i, x, q)
  step-lem false c o op skipped later ops e (inr q) l = inr q

  index_id_lem :
      (op : ℤ) (ops : List Object)
      → Indexes (index_id w decode claim op ops) ops ⊎ (index_id w decode claim op ops ≡ op)
  unfolding index_id
  index_id_lem op [] = inr refl
  index_id_lem op (o ∷ ops) =
      step-lem (indexed w o) (is_positive (id_of w o)) o op _ _ ops refl (index_id_lem op ops)
        (index_id_lem (id_of w o) ops)

  -- The operation that the link names was listed after `s`, and indexes a snapshot.
  abbrev pub IsStreamed : Trace → Trace → Minted → Type 0
  IsStreamed s t link =
      (o : Object) × Listed w s t o × (indexed w o ≡ true) × (id_of w o ≡ link.operation_id)

  module _ (s : Trace) where
    -- the host has listed `ops`
    abbrev Got : Trace → List Object → Type 0
    Got t ops = (u : Trace) × Before s u × Before u t × (w.objects u ≡ ok ops)

    get_operations-Got : (sel : Args) (n : ℕ) → Yields (Before s) (get_operations w sel n) Got
    unfolding get_operations ask
    get_operations-Got sel n = record { at = λ t b ops q. (_, Before.later b, Before.here, q) }

    link_at-Got :
        (m : Mint) (ops : List Object) (id : ℤ) (path mode : Bytes)
        → Yields
            (λ t. Got t ops)
            (link_at w decode claim m id path mode)
            (λ t link. Got t ops × (link.operation_id ≡ id))
    unfolding link_at link_to get_download_url ask
    link_at-Got m ops id path mode =
        Yields-then {Q = λ t r. Got t ops} (get_download_url w id path) _ _
          (Yields-then {Q = λ t r. Got t ops} (ask w.value _) _ _
            (record { at = λ t h v q. (h.0, h.1, Before.later h.2, h.3) }) (λ K e. Yields-err e)
            (λ v. Yields-value _ (λ t a h q. h)))
          (λ K e. Yields-err e) (λ r. Yields-pure _ (λ t h. (h, refl)))

    found :
        (t : Trace) (ops : List Object) (link : Minted)
        → eq_int (index_id w decode claim (pos 0) ops) (pos 0) ≡ false
        → Got t ops
        → link.operation_id ≡ index_id w decode claim (pos 0) ops
        → IsStreamed s t link
    found t ops link e (u, b, c, q) same = elim (index_id_lem (pos 0) ops) [
      | inl (o, i, x, id) ↦ (o, (u, ops, b, c, q, i), x, id ∙ sym same)
      | inr z ↦
          absurd (ground (arith, e, z, eq_int_iff (index_id w decode claim (pos 0) ops) (pos 0)))
    ]

    link_to_index-Yields :
        (m : Mint) (ops : List Object)
        → Yields
            (λ t. Got t ops)
            (link_to_index w decode claim m (index_id w decode claim (pos 0) ops))
            (IsStreamed s)
    unfolding link_to_index
    link_to_index-Yields m ops =
        let id = index_id w decode claim (pos 0) ops in
        Yields-if (eq_int id (pos 0)) _ (link_at w decode claim m id m.path (bytes "stream"))
          (λ _. Yields-err _)
          (λ e.
            Yields-to (λ t link h. found t ops link e h.0 h.1)
              (link_at-Got m ops id m.path (bytes "stream")))

    mint_stream-Yields :
        (m : Mint) → Yields (Before s) (mint_stream w decode claim m) (IsStreamed s)
    unfolding mint_stream
    mint_stream-Yields m =
        Yields-then (get_operations w _ 20) _ _ (get_operations-Got _ 20) (λ K e. Yields-err e)
          (λ ops. link_to_index-Yields m ops)

    mint_for-Yields :
        (m : Mint)
        → wants_restore m.mode ≡ false
        → Yields (Before s) (mint_download_url w decode claim m) (IsStreamed s)
    unfolding mint_download_url
    mint_for-Yields m h =
        Yields-if (is_empty m.snapshot) _ _ (λ _. Yields-err _)
          (λ _.
            Yields-if (wants_restore m.mode) _ _ (λ e. absurd cc)
              (λ _. mint_stream-Yields (with_path m)))

  mint_stream-Keeps :
      (I : Trace → Type 0) (m : Mint)
      → Ignores I Kind.plain
      → Keeps I (mint_stream w decode claim m)
  unfolding mint_stream get_operations link_to_index link_at get_download_url
  mint_stream-Keeps I m plain = search keeps_rules depth 12

  plain-count : (n : ℕ) → Ignores (λ u. restore_count u ≡ n) Kind.plain
  unfolding restore_count
  plain-count n e u h same = ap (λ k. counted k (restore_count u)) h ∙ same

  unrestored :
      (n : ℕ) (m : Mint)
      → wants_restore m.mode ≡ false
      → Keeps (λ u. restore_count u ≡ n) (mint_download_url w decode claim m)
  unfolding mint_download_url
  unrestored n m h = rw h (
      Keeps-if (is_empty m.snapshot) _ _ (Keeps-pure _)
        (mint_stream-Keeps _ (with_path m) (plain-count n)))

  -- In any other mode than restore, MintDownloadURL asks for no restore, whatever the host answers,
  -- and a link that it answers with names an operation that the host listed meanwhile as the index of
  -- a snapshot.
  pub mint_download_url-IsStreamed :
      (m : Mint) (s : Trace)
      → wants_restore m.mode ≡ false
      → let r = mint_download_url w decode claim m s in
        (restore_count r.1 ≡ restore_count s)
        × ((link : Minted) → r.0 ≡ ok link → IsStreamed s r.1 link)
  mint_download_url-IsStreamed m s h = (
    (unrestored (restore_count s) m h).at s refl,
    λ link q. (mint_for-Yields s m h).at s Before.here link q,
  )
