-- ===== src/Values.antt =====
-- The macros of `values.h`.
use amigao.Base.{ℕ}

abbrev pub url_size : ℕ
url_size = 2048

abbrev pub html_size : ℕ
html_size = 1048576

abbrev pub url_nums : ℕ
url_nums = 20000

abbrev pub html_nums : ℕ
html_nums = 60

abbrev pub db_dictionary_word_size : ℕ
db_dictionary_word_size = 768

abbrev pub word_size : ℕ
word_size = 255

abbrev pub max_search_sentence_size : ℕ
max_search_sentence_size = 90

abbrev pub max_contents_size : ℕ
max_contents_size = 355

abbrev pub dfl_pages : ℕ
dfl_pages = 7
