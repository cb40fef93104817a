-- ===== src/Repo/Steps.antt =====
-- packages/danaus/src/actors/repo/transactor.ts: what the loop over the writes keeps up between the
-- tree, the commit's operations and the changes of the record index.
use text.Mathlib.TextLemmas.{append_cancel_left}
use danaus.Prelude.{
  bind-ok, ok-injective, fail-ne-ok, ok, ℕ, String, ◌≡◌, refl, sym, ap, subst, ◌∙◌, Bool, true,
  false, not, ◌&&◌, Option, none, some, List, [], ◌∷◌, ◌++◌, arith, if◌then◌else◌, str_eq,
  str_eq→eq, str_eq_refl, str_eq-false, ne-of-str_eq-false, is_some, Bool-cases, inl, inr, map,
  map-append,
}
use danaus.Table.{any}
use danaus.SeqEvent.{Action, create, update, delete, Op}
use danaus.RecordIndex.Lookup.{last_upsert, last_upsert-append, any-append}
use danaus.Repo.{RepoWriteOp, create_op, update_op, delete_op, Store, Libraries, overlay}
use danaus.Repo.Writes.{
  RepoRecordDelete, RepoError, throw_if, Progress, base_of, path_of, uri_of, swap_fails, record_key,
  require_key, check_action, removed, written, perform, apply_write, apply_all, invalid_swap,
}
use danaus.Repo.Tree.{
  Paths, MstLaws, after, after-append, TrueOf, Honest, Honest-append, deletes_path, last_written,
}

pub throw_if-ok : (t : Bool) (e : RepoError) (u : Unit {0}) → throw_if t e ≡ ok u → t ≡ false
throw_if-ok true e u h = absurd (fail-ne-ok e u h)
throw_if-ok false e u h = refl

pub uri_of-str_eq : (did a b : String) → str_eq (uri_of did a) (uri_of did b) ≡ str_eq a b
unfolding uri_of
uri_of-str_eq did a b = elim (Bool-cases (str_eq a b)) [
  | inl e ↦ rw (str_eq→eq a b e) (str_eq_refl _ ∙ sym (str_eq_refl b))
  | inr e ↦
      str_eq-false _ _ (λ h.
        ne-of-str_eq-false a b e
          (append_cancel_left _ _ _ (append_cancel_left _ _ _ (append_cancel_left _ _ _ h))))
      ∙ sym e
]

deletes_path-append :
    (path : String) (xs ys : List (Op String))
    → deletes_path path (xs ++ ys) ≡ (if deletes_path path xs then true else deletes_path path ys)
deletes_path-append path [] ys = refl
deletes_path-append path (x ∷ xs) ys = ground (arith, deletes_path-append path xs ys)

last_written-append :
    (path : String) (xs ys : List (Op String)) (old : Option String)
    → last_written path (xs ++ ys) old ≡ last_written path ys (last_written path xs old)
last_written-append path [] ys old = refl
last_written-append path (x ∷ xs) ys old =
    last_written-append path xs ys (if str_eq path x.path && is_some x.cid then x.cid else old)

abbrev pub uris_of : List RepoRecordDelete → List String
uris_of deletes = map (λ (d : RepoRecordDelete). d.uri) deletes

module _ {Rec : Type 0} (L : Libraries Rec) (laws : MstLaws L) (store : Store) (did rev : String)
    (now : ℕ) (m : Paths) where
  -- What holds before and after each round, where the tree stood for `m` before the first.
  pub record Sound (p : Progress Rec) : Type 0 where
    pub tree : laws.Tree (overlay p.memory store) p.root (after p.ops m)
    pub honest : Honest m p.ops
    pub deletes_match :
        (path : String)
        → any (λ v. str_eq (uri_of did path) v) (uris_of p.deletes) ≡ deletes_path path p.ops
    pub upserts_match :
        (path : String) (old : Option String)
        → last_upsert (uri_of did path) p.upserts old ≡ last_written path p.ops old

  written-Sound :
      (action : Action) (collection rkey : String) (value : Rec) (prev : Option String)
      (p : Progress Rec)
      → TrueOf action
          (some (L.create_cid (L.encode_record value)))
          prev
          (after p.ops m (path_of collection rkey))
      → Sound p
      → Sound (written L store did rev now action collection rkey value prev p)
  unfolding any
  written-Sound action collection rkey value prev p h i =
      let path = path_of collection rkey in
      let cid = L.create_cid (L.encode_record value) in
      let op : Op String = record { action = action; path = path; cid = some cid; prev = prev } in
      record {
        tree =
            subst
              (λ n.
                laws.Tree
                  (overlay (written L store did rev now action collection rkey value prev p).memory
                    store)
                  (written L store did rev now action collection rkey value prev p).root n)
              (sym (after-append p.ops (op ∷ []) m))
              (laws.put_lem store p.memory p.root (after p.ops m) path cid i.tree);
        honest = Honest-append p.ops (op ∷ []) m i.honest (h, tt);
        deletes_match =
            λ q. ground (arith, i.deletes_match q, deletes_path-append q p.ops (op ∷ []));
        upserts_match = λ q old.
            last_upsert-append (uri_of did q) p.upserts
              (record {
                uri = uri_of did path;
                collection = collection;
                rkey = rkey;
                cid = cid;
                rev = rev;
                created_at = now;
              }
                ∷ [])
              old
            ∙ ground (
              arith,
              uri_of-str_eq did q path,
              i.upserts_match q old,
              last_written-append q p.ops (op ∷ []) old,
            );
      }

  removed-Sound :
      (collection rkey : String) (prev : Option String) (p : Progress Rec)
      → TrueOf delete none prev (after p.ops m (path_of collection rkey))
      → Sound p
      → Sound (removed L store did rev now collection rkey prev p)
  unfolding any
  removed-Sound collection rkey prev p h i =
      let path = path_of collection rkey in
      let op : Op String = record { action = delete; path = path; cid = none; prev = prev } in
      record {
        tree =
            subst
              (λ n.
                laws.Tree
                  (overlay (removed L store did rev now collection rkey prev p).memory store)
                  (removed L store did rev now collection rkey prev p).root n)
              (sym (after-append p.ops (op ∷ []) m))
              (laws.delete_lem store p.memory p.root (after p.ops m) path i.tree);
        honest = Honest-append p.ops (op ∷ []) m i.honest (h, tt);
        deletes_match = λ q.
            ap (any (λ v. str_eq (uri_of did q) v)) (map-append _ p.deletes _)
            ∙ any-append (λ v. str_eq (uri_of did q) v) (uris_of p.deletes) (uri_of did path ∷ [])
            ∙ ground (
              arith,
              uri_of-str_eq did q path,
              i.deletes_match q,
              deletes_path-append q p.ops (op ∷ []),
            );
        upserts_match = λ q old.
            i.upserts_match q old ∙ sym (last_written-append q p.ops (op ∷ []) old ∙ ground arith);
      }

  perform-Sound :
      (w : RepoWriteOp Rec) (rkey : String) (prev : Option String) (u : Unit {0}) (p : Progress Rec)
      → check_action L w prev ≡ ok u
      → prev ≡ after p.ops m (path_of (base_of w).collection rkey)
      → Sound p
      → Sound (perform L store did rev now w rkey prev p)
  perform-Sound (create_op base value) rkey prev u p c e i =
      let absent : is_some prev ≡ false = throw_if-ok (is_some prev) _ u c in
      written-Sound create base.collection rkey value none p
        (ground (arith, sym e, absent), refl, refl) i
  perform-Sound (update_op base value) rkey prev u p c e i =
      let there : not (is_some prev) ≡ false = throw_if-ok (not (is_some prev)) _ u c in
      written-Sound update base.collection rkey value prev p (e, ground (arith, sym e, there), refl)
        i
  perform-Sound (delete_op base) rkey prev u p c e i =
      let there : not (is_some prev) ≡ false = throw_if-ok (not (is_some prev)) _ u c in
      removed-Sound base.collection rkey prev p (e, ground (arith, sym e, there), refl) i

  apply_write-Sound :
      (w : RepoWriteOp Rec) (p p' : Progress Rec)
      → Sound p
      → apply_write L store did rev now w p ≡ ok p'
      → Sound p'
  unfolding apply_write
  apply_write-Sound w p p' i h =
      let (rkey, (_, h1)) = bind-ok (require_key L (record_key L w p.tids).0) _ p' h in
      let prev = L.find (overlay p.memory store) p.root (path_of (base_of w).collection rkey) in
      let (_, (_, h2)) =
        bind-ok (throw_if (swap_fails (base_of w).swap_record prev) invalid_swap) _ p' h1 in
      let (u, (c, h3)) = bind-ok (check_action L w prev) _ p' h2 in
      let start : Progress Rec = record p { tids = (record_key L w p.tids).1 } in
      let sound : Sound start = record {
        tree = i.tree;
        honest = i.honest;
        deletes_match = i.deletes_match;
        upserts_match = i.upserts_match;
      } in
      subst Sound (ok-injective _ _ h3) (
        perform-Sound w rkey prev u start c
          (laws.find_lem (overlay p.memory store) p.root (after p.ops m)
            (path_of (base_of w).collection rkey) i.tree)
          sound)

  pub apply_all-Sound :
      (ws : List (RepoWriteOp Rec)) (p p' : Progress Rec)
      → Sound p
      → apply_all L store did rev now ws p ≡ ok p'
      → Sound p'
  unfolding apply_all
  apply_all-Sound [] p p' i h = subst Sound (ok-injective _ _ h) i
  apply_all-Sound (w ∷ ws) p p' i h =
      let (q, (e, h1)) = bind-ok (apply_write L store did rev now w p) _ p' h in
      apply_all-Sound ws q p' (apply_write-Sound w p q i e) h1
