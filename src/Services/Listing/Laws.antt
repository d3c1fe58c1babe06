-- ===== src/Services/Listing/Laws.antt =====
-- What the signature of a cursor is good for.
use whatsapp_notification_pl.Prelude.{
  ◌≡◌, refl, ap, Bool, true, not, Option, none, some, [], ◌∷◌, ◌++◌, arith, ◌==◌, all, Text,
  text_eq_refl,
}
use whatsapp_notification_pl.Database.Listing.{Cursor}
use whatsapp_notification_pl.Database.Transaction.{Result, ok, error}
use whatsapp_notification_pl.Services.Listing.{
  QueryError, unreadable_cursor, CursorCodec, dot, first_segment, after_dot, encode_cursor,
  read_signed, decode_cursor,
}

abbrev pub has_no_dot : Text → Bool
has_no_dot t = all (λ c. not (c == dot)) t

first_segment-append : (xs ys : Text) → has_no_dot xs ≡ true → first_segment (xs ++ dot ∷ ys) ≡ xs
first_segment-append [] ys h = refl
first_segment-append (x ∷ xs) ys h = ground (arith, first_segment-append xs ys)

first_segment_whole : (xs : Text) → has_no_dot xs ≡ true → first_segment xs ≡ xs
first_segment_whole [] h = refl
first_segment_whole (x ∷ xs) h = ground (arith, first_segment_whole xs)

after_dot-append : (xs ys : Text) → has_no_dot xs ≡ true → after_dot (xs ++ dot ∷ ys) ≡ some ys
after_dot-append [] ys h = refl
after_dot-append (x ∷ xs) ys h = ground (arith, after_dot-append xs ys)

read_signed-some :
    (codec : CursorCodec) (encoded : Text) (cursor : Cursor)
    → codec.read_payload encoded ≡ some cursor
    → read_signed codec encoded ≡ ok (some cursor)
read_signed-some codec encoded cursor h = go (codec.read_payload encoded) h
  where
    go :
        (o : Option Cursor)
        → o ≡ some cursor
        → elim o as (λ _. Result QueryError (Option Cursor)) [
          | none ↦ error unreadable_cursor
          | some c ↦ ok (some c)
        ]
          ≡ ok (some cursor)
    go none e = cc
    go (some c) e = ap ok e

-- A cursor that was given out is read back as what it stood for, where payloads and signatures hold
-- no dots and a payload is read as it was written.
pub decode_cursor-encode_cursor :
    (codec : CursorCodec) (cursor : Cursor)
    → has_no_dot (codec.write_payload cursor) ≡ true
    → has_no_dot (codec.sign (codec.write_payload cursor)) ≡ true
    → codec.read_payload (codec.write_payload cursor) ≡ some cursor
    → decode_cursor codec (some (encode_cursor codec cursor)) ≡ ok (some cursor)
unfolding decode_cursor encode_cursor
decode_cursor-encode_cursor codec cursor plain plain' reads =
    rw
      (
        first_segment-append (codec.write_payload cursor) (codec.sign (codec.write_payload cursor))
            plain,
        after_dot-append (codec.write_payload cursor) (codec.sign (codec.write_payload cursor))
            plain,
        first_segment_whole (codec.sign (codec.write_payload cursor)) plain',
        text_eq_refl (codec.sign (codec.write_payload cursor)),
      )
      (read_signed-some codec (codec.write_payload cursor) cursor reads)
