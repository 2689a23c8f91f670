-- ===== src/Tests/Library.antt =====
-- An archive with one item and its file, a platform that knows one media type, and a content store that
-- publishes a file under the ID of its item.
use go_mediaarchive.Base.{
  ◌≡◌, refl, sym, ap, subst, ◌∙◌, Bool, Bool-cases, true, false, not, ◌&&◌, ◌||◌, inl, inr, Option,
  none, some, List, [], ◌∷◌, arith, any, keep, if◌then◌else◌,
}
use go_mediaarchive.Base.Int.{pos}
use go_mediaarchive.Go.Text.{
  Text, codes, text_eq, text_eq→≡, trim_space, trim_left, trim_right, is_space,
}
use go_mediaarchive.Go.Failure.{ok, err, external}
use go_mediaarchive.Identity.Username.{Platform}
use go_mediaarchive.Media.Grant.{Item}
use go_mediaarchive.Media.Item.{RawItem, raw_of}
use go_mediaarchive.Media.Item.Laws.{IsMimeParser}
use go_mediaarchive.Content.{Location}
use go_mediaarchive.Store.Tables.{World}
use go_mediaarchive.Store.Items.Rows.{item_row_of}
use go_mediaarchive.Services.Upload.{ContentStore}
use go_mediaarchive.Services.Upload.Compensation.{IsContentStore}
use go_mediaarchive.Services.Deletion.Failures.{IsDeletionStore}
use go_mediaarchive.Tests.Fixtures.{platform, at, archive, world, item}

abbrev pub pdf : Text
pdf = codes "application/pdf"

abbrev pub only_pdf : Text → Option (Text × Bool)
only_pdf t = if text_eq t pdf then some (t, false) else none

abbrev pub library : Platform
library = record platform { parse_media_type = only_pdf }

parsed : (t m : Text) → only_pdf t ≡ some (m, false) → (t ≡ pdf) × (m ≡ pdf)
parsed t m h = elim (Bool-cases (text_eq t pdf)) [
  | inl q ↦ (text_eq→≡ t pdf q, ground (arith, h, q, text_eq→≡ t pdf q))
  | inr q ↦ ground (arith, h, q)
]

trimmed_pdf : trim_space pdf ≡ pdf
unfolding trim_space trim_left trim_right is_space
trimmed_pdf = refl

known_pdf : only_pdf pdf ≡ some (pdf, false)
unfolding text_eq
known_pdf = refl

pub library-IsMimeParser : IsMimeParser library
library-IsMimeParser = record {
  again = λ t m h. subst (λ x. only_pdf x ≡ some (x, false)) (sym (parsed t m h).1) known_pdf;
  trimmed = λ t m h. subst (λ x. trim_space x ≡ x) (sym (parsed t m h).1) trimmed_pdf;
  shorter = λ t m h. ground (arith, parsed t m h);
}

abbrev pub checksum : Text
checksum = codes "01234567890123456789012345678901"

abbrev pub document : Item
document = record item {
  id = b'd' ∷ [];
  authors = codes "Zoe" ∷ codes "Al" ∷ [];
  checksum = checksum;
}

-- The arguments that the document is made of.
abbrev pub raw_document : RawItem
raw_document = record (raw_of document) { title = codes " T" }

abbrev pub location : Location
location = record { media_id = b'd' ∷ []; storage_key = codes "k"; stored_at = at 10 }

abbrev pub without_items : World
without_items = record world {
  db = record archive { items = []; grants = [] };
  files = codes "other" ∷ [];
}

abbrev pub with_document : World
with_document = record world {
  db = record archive {
    items = item_row_of document ∷ [];
    authors =
        record { media_id = b'd' ∷ []; position = 0; name = codes "Zoe" }
        ∷ record { media_id = b'd' ∷ []; position = 1; name = codes "Al" }
        ∷ [];
    contents = location ∷ [];
    grants = record { media_id = b'd' ∷ []; user_id = b'b' ∷ []; permissions = 3 } ∷ [];
  };
  files = codes "k" ∷ codes "other" ∷ [];
}

abbrev with_files : World → List Text → World
with_files w fs = record w { files = fs }

abbrev pub has_key : Text → World → Bool
has_key key w = any (λ k. text_eq k key) w.files

abbrev pub without_key : Text → List Text → List Text
without_key key = keep (λ k. not (text_eq k key))

abbrev pub simple_store : ContentStore
simple_store = record {
  put = λ id source maximum w. if has_key id w then (err (external ∷ []), w) else (
    ok (record { storage_key = id; size = pos 5; checksum = checksum }),
    with_files w (id ∷ w.files),
  );
  delete = λ key w. (ok tt, with_files w (without_key key w.files));
  stage_delete = λ key w.
      if has_key key w
      then (ok tt, with_files w (without_key key w.files))
      else (err (external ∷ []), w);
  commit_delete = λ key w. (ok tt, w);
  rollback_delete = λ key w. (ok tt, with_files w (key ∷ w.files));
}

pub simple_store-IsContentStore : IsContentStore simple_store
simple_store-IsContentStore = record {
  put_db = λ id source n w. ground arith;
  put_ok = λ id source n w c v h. ground (arith, h);
  put_err = λ id source n w e v h. ground (arith, h);
  delete_db = λ key w. refl;
  delete_ok = λ key w v h. ap (λ p. p.1.files) (sym h);
  delete_err = λ key w e v h. ground (arith, h);
}

without_key-holds :
    (key : Text) (fs : List Text) (k : Text)
    → any (λ x. text_eq x k) (without_key key fs)
      ≡ (not (text_eq k key) && any (λ x. text_eq x k) fs)
without_key-holds key [] k = ground arith
without_key-holds key (f ∷ fs) k =
    let rest = without_key-holds key fs k in
    elim (Bool-cases (text_eq f key)) [
      | inl q ↦ elim (Bool-cases (text_eq f k)) [
        | inl r ↦ ground (arith, q, r, rest, ap (λ x. text_eq x key) (sym (text_eq→≡ f k r)))
        | inr r ↦ ground (arith, q, r, rest)
      ]
      | inr q ↦ elim (Bool-cases (text_eq f k)) [
        | inl r ↦ ground (arith, q, r, rest, ap (λ x. text_eq x key) (sym (text_eq→≡ f k r)))
        | inr r ↦ ground (arith, q, r, rest)
      ]
    ]

text_eq_sym : (a b : Text) → text_eq a b ≡ text_eq b a
text_eq_sym a b = elim (Bool-cases (text_eq a b)) [
  | inl q ↦ subst (λ x. text_eq a x ≡ text_eq x a) (text_eq→≡ a b q) refl
  | inr q ↦ elim (Bool-cases (text_eq b a)) [
    | inr r ↦ q ∙ sym r
    | inl r ↦ subst (λ x. text_eq x b ≡ text_eq b x) (text_eq→≡ b a r) refl
  ]
]

pub simple_store-IsDeletionStore : IsDeletionStore simple_store
simple_store-IsDeletionStore = record {
  stage_db = λ key w. ground arith;
  stage_ok = λ key w v h.
      let split : (has_key key w ≡ true) × (v.files ≡ without_key key w.files) =
        ground (arith, h) in
      (split.0, λ k. ap (any (λ x. text_eq x k)) split.1 ∙ without_key-holds key w.files k);
  stage_err = λ key w e v h. ground (arith, h);
  rollback_db = λ key w. refl;
  rollback_ok = λ key w v h k.
      ap (λ p. any (λ x. text_eq x k) p.1.files) (sym h)
      ∙ ap (λ b. b || any (λ x. text_eq x k) w.files) (text_eq_sym key k);
  rollback_err = λ key w e v h. ground (arith, h);
  commit_db = λ key w. refl;
  commit_files = λ key w. refl;
}
