-- ===== src/Catalogue/Metadata.antt =====
-- validateBookMetadata, validMetadataText and callNumberPattern of internal/service. A year is a natural
-- number: one below 0 is refused as one below 1000 is.
use holibrary_backend.Prelude.{
  ℕ, ◌+◌, leb, ltb, ◌==◌, Bool, true, false, ◌&&◌, ◌||◌, not, Option, none, some, List, [], ◌∷◌,
  map, Result, ok, err, if◌then◌else◌, is_some, text_eq, trim_space, length, sort_by,
}
use holibrary_backend.Domain.{Error, invalid_book_metadata}
use holibrary_backend.Catalogue.Isbn.{valid_isbn}
use holibrary_backend.Migrations.Apply.{text_before}
use holibrary_backend.Search.Numbers.{is_control, is_digit_code, to_upper}
use holibrary_backend.Search.Values.{normalise_isbn}

-- UpdateBookParams, less StaffID.
pub record BookPatch : Type 0 where
  pub title : Option (List ℕ)
  pub subtitle : Option (List ℕ)
  pub isbn13 : Option (List ℕ)
  pub isbn10 : Option (List ℕ)
  pub publisher : Option (List ℕ)
  pub place_of_publication : Option (List ℕ)
  pub call_number : Option (List ℕ)
  pub edition : Option (List ℕ)
  pub language : Option (List ℕ)
  pub description : Option (List ℕ)
  pub faculty : Option (List ℕ)
  pub department : Option (List ℕ)
  pub published_year : Option ℕ
  pub authors : Option (List (List ℕ))
  pub subjects : Option (List (List ℕ))

abbrev line_control : ℕ → Bool
line_control c = c == 10 || c == 13 || c == 9

unfoldable pub allowed_runes : Bool → List ℕ → Bool
allowed_runes multiline [] = true
allowed_runes multiline (c ∷ s) =
    not (is_control c && not (multiline && line_control c)) && allowed_runes multiline s

-- validMetadataText
unfoldable pub valid_metadata_text : ℕ → Bool → List ℕ → Bool
valid_metadata_text max multiline v = leb (length v) max && allowed_runes multiline v

abbrev pub no_text : List ℕ → Bool
no_text v = length v == 0

-- One of the twelve texts, where it is supplied.
unfoldable pub text_fits : ℕ → Bool → Bool → Option (List ℕ) → Bool
text_fits max required multiline none = true
text_fits max required multiline (some v) =
    valid_metadata_text max multiline (trim_space v) && not (required && no_text (trim_space v))

-- callNumberPattern: [A-Z0-9 .:/-]* to the end
abbrev is_capital : ℕ → Bool
is_capital c = leb b'A' c && leb c b'Z'

abbrev tail_rune : ℕ → Bool
tail_rune c =
    is_capital c || is_digit_code c || c == 32 || c == b'.' || c == b':' || c == b'/' || c == b'-'

unfoldable pub all_tail : List ℕ → Bool
all_tail [] = true
all_tail (c ∷ s) = tail_rune c && all_tail s

-- (?:[ .][A-Z0-9][A-Z0-9 .:/-]*)?$
unfoldable pub ends_class_mark : List ℕ → Bool
ends_class_mark [] = true
ends_class_mark (c ∷ []) = false
ends_class_mark (c ∷ d ∷ s) =
    (c == 32 || c == b'.') && (is_capital d || is_digit_code d) && all_tail s

-- The digits of a decimal, of which `some` says that there was one.
unfoldable pub decimal : Bool → List ℕ → Bool
decimal seen [] = seen
decimal seen (c ∷ s) =
    let rest = decimal true s in if is_digit_code c then rest else seen && ends_class_mark (c ∷ s)

-- (?:\.[0-9]+)? and the end
unfoldable pub after_number : List ℕ → Bool
after_number [] = true
after_number (c ∷ s) = ends_class_mark (c ∷ s) || c == b'.' && decimal false s

-- [0-9]+ and what follows it
unfoldable pub class_number : Bool → List ℕ → Bool
class_number seen [] = seen
class_number seen (c ∷ s) =
    let rest = class_number true s in if is_digit_code c then rest else seen && after_number (c ∷ s)

-- \s* of the pattern: tab, line feed, form feed, carriage return and space
abbrev is_gap : ℕ → Bool
is_gap c = c == 32 || c == 9 || c == 10 || c == 12 || c == 13

unfoldable pub after_letters : List ℕ → Bool
after_letters [] = false
after_letters (c ∷ s) =
    let rest = after_letters s in if is_gap c then rest else class_number false (c ∷ s)

-- ^[A-Z]{1,3}, with at most that many letters to come
unfoldable pub class_letters : ℕ → List ℕ → Bool
class_letters n [] = false
class_letters n (c ∷ s) =
    let rest = class_letters (n + 1) s in
    if is_capital c && ltb n 3 then rest else leb 1 n && after_letters (c ∷ s)

unfoldable pub is_call_number : List ℕ → Bool
is_call_number v = class_letters 0 v

abbrev call_number_fits : Option (List ℕ) → Bool
call_number_fits none = true
call_number_fits (some v) = is_call_number (to_upper (trim_space v))

abbrev clean_isbn : List ℕ → List ℕ
clean_isbn v = to_upper (normalise_isbn (trim_space v))

abbrev isbn_fits : ℕ → Option (List ℕ) → Bool
isbn_fits n none = true
isbn_fits n (some v) = no_text (clean_isbn v) || valid_isbn (clean_isbn v) n

unfoldable pub year_fits : ℕ → Option ℕ → Bool
year_fits this_year none = true
year_fits this_year (some y) = leb 1000 y && leb y (this_year + 1) && leb y 2100

unfoldable pub is_among : List ℕ → List (List ℕ) → Bool
is_among v [] = false
is_among v (s ∷ seen) = text_eq s v || is_among v seen

-- The loop over authors or subjects.
unfoldable pub distinct_names : List (List ℕ) → List (List ℕ) → Bool
distinct_names seen [] = true
distinct_names seen (v ∷ vs) =
    let t = trim_space v in
    not (no_text t)
    && valid_metadata_text 200 false t
    && not (is_among t seen)
    && distinct_names (t ∷ seen) vs

abbrev names_fit : Option (List (List ℕ)) → Bool
names_fit none = true
names_fit (some vs) = leb (length vs) 100 && distinct_names [] vs

unfoldable pub supplies : BookPatch → Bool
supplies p =
    is_some p.title
    || is_some p.subtitle
    || is_some p.isbn13
    || is_some p.isbn10
    || is_some p.publisher
    || is_some p.place_of_publication
    || is_some p.call_number
    || is_some p.edition
    || is_some p.language
    || is_some p.description
    || is_some p.faculty
    || is_some p.department
    || is_some p.published_year
    || is_some p.authors
    || is_some p.subjects

unfoldable pub fits : ℕ → BookPatch → Bool
fits this_year p =
    text_fits 500 true false p.title
    && text_fits 500 false false p.subtitle
    && text_fits 40 false false p.isbn13
    && text_fits 40 false false p.isbn10
    && text_fits 500 false false p.publisher
    && text_fits 500 false false p.place_of_publication
    && text_fits 200 true false p.call_number
    && text_fits 200 false false p.edition
    && text_fits 200 false false p.language
    && text_fits 200 false false p.faculty
    && text_fits 200 false false p.department
    && text_fits 20_000 false true p.description
    && call_number_fits p.call_number
    && isbn_fits 13 p.isbn13
    && isbn_fits 10 p.isbn10
    && year_fits this_year p.published_year
    && names_fit p.authors
    && names_fit p.subjects
    && supplies p

abbrev supplied {ℓ} : {A : Type ℓ} → (A → A) → Option A → Option A
supplied f none = none
supplied f (some v) = some (f v)

-- The values that go on: trimmed, with the ISBNs normalised and the subjects in order.
unfoldable pub cleaned : BookPatch → BookPatch
cleaned p = record {
  title = supplied trim_space p.title;
  subtitle = supplied trim_space p.subtitle;
  isbn13 = supplied clean_isbn p.isbn13;
  isbn10 = supplied clean_isbn p.isbn10;
  publisher = supplied trim_space p.publisher;
  place_of_publication = supplied trim_space p.place_of_publication;
  call_number = supplied trim_space p.call_number;
  edition = supplied trim_space p.edition;
  language = supplied trim_space p.language;
  description = supplied trim_space p.description;
  faculty = supplied trim_space p.faculty;
  department = supplied trim_space p.department;
  published_year = p.published_year;
  authors = supplied (map trim_space) p.authors;
  subjects = supplied (λ vs. sort_by text_before (map trim_space vs)) p.subjects;
}

-- validateBookMetadata; all its refusals are one error.
unfoldable pub validate_book_metadata : ℕ → BookPatch → Result Error BookPatch
validate_book_metadata this_year p =
    if fits this_year p then ok (cleaned p) else err invalid_book_metadata
