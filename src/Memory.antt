-- ===== src/Memory.antt =====
-- A database whose tables are lists: the laws of `Database` can be met, and examples run on it.
mod Sort
mod Least
mod Write
unfoldable pub use Sort.{sort_by}
use Sort.{sort_by-perm, sort_by-IsOrdered}
unfoldable pub use Least.{least}
use Least.{least_law}
unfoldable pub use Write.{create, update}
use Write.{create_law, update_law}
use mathlib.Core.List.Permᴰ
use mathlib.Core.List.{Permᴰ}
use fsm_backend.Prelude.{refl, List, not, select, count, update_where}
use fsm_backend.Prisma.{Database, insert_new}

unfoldable pub memory : Database
unfolding create update least sort_by
memory = record {
  Table = List;
  rows = λ t. t;
  find_first = λ o w t. least o w t;
  find_many = λ o w t. sort_by o (select w t);
  create = λ us r t. create us r t;
  create_many = λ us new t. insert_new us new t;
  update = λ us w f t. update us w f t;
  update_many = λ w f t. (update_where w f t, count w t);
  delete_many = λ w t. (select (λ r. not (w r)) t, count w t);
  find_first_law = λ o w t. least_law o w t;
  find_many_perm = λ o w t. sort_by-perm o (select w t);
  find_many_ordered = λ o w t. sort_by-IsOrdered o (select w t);
  create_law = λ us r t. create_law us r t;
  create_many_law = λ us new t. refl;
  update_law = λ us w f t. update_law us w f t;
  update_many_law = λ w f t. (refl, refl);
  delete_many_law = λ w t. (refl, refl);
}
