-- ===== src/Admin/Web.antt =====
-- What the admin handlers share: the request they read, and a page made from two templates
-- (`html/template` over the files of admin/templates is an argument).
use mobile_db.Prelude.{
  ℕ, if◌then◌else◌, ◌==◌, nat_eq, pair_eq, ℤ_eq, Str, str_eq_inst, Option, none, some, [], ◌∷◌,
}
use mobile_db.Prelude.Dict.{Dict, get}
use mobile_db.Server.Requests.{Response}

pub record PageRequest : Type 0 where
  pub method : Str
  pub path : Str
  pub query : Dict Str Str

-- `r.URL.Query().Get(key)`: empty when the key is missing
unfoldable pub query_get : PageRequest → Str → Str
query_get r key = elim (get r.query key) [ none ↦ [] | some v ↦ v ]

-- `ExecuteTemplate` of a page's own template over what it shows, and of "base" over the title and
-- the content; `none` is an error.
pub record Templates (View : Type 0) : Type 0 where
  pub content : View → Option Str
  pub base : Str → Str → Option Str

unfoldable pub reply : ℕ → Str → Response
reply status body = record { status = status; body = body }

unfoldable pub framed : Option Str → Response
unfolding reply
framed none = reply 500 []
framed (some page) = reply 200 page

module _ {View : Type 0} (tmpl : Templates View) where
  unfoldable pub with_base : Str → Option Str → Response
  unfolding reply framed
  with_base title none = reply 500 []
  with_base title (some text) = framed (tmpl.base title text)

  unfoldable pub show_page : Str → View → Response
  unfolding with_base
  show_page title view = with_base title (tmpl.content view)

  -- A partial: its template alone.
  unfoldable pub show_part : View → Response
  unfolding framed
  show_part view = framed (tmpl.content view)

-- `path[strings.LastIndex(path, "/")+1:]`: what follows the last slash, the whole path if there is none
unfoldable pub after_slash : Str → Str → Str
after_slash acc [] = acc
after_slash acc (c ∷ s) = if c == b'/' then after_slash s s else after_slash acc s

unfoldable pub last_segment : Str → Str
unfolding after_slash
last_segment path = after_slash path path
