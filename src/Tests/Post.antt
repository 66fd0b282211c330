-- ===== src/Tests/Post.antt =====
-- x/post: a repost of a repost.
use lino.Tests.Ints.{test_sdk, coins}
use lino.Prelude.{List, [], ◌∷◌, refl, String, none, ◌≡◌, some}
use lino.Post.Store.{PostStore, PostInfo}
use lino.Post.Sources.{IsSourced, nothing_there}
use lino.Post.Operations.{
  PostOperation, creates, perform_all, perform_all-IsSourced, donates, deletes,
}
use lino.Prelude.Table.{insert, empty}
use lino.Prelude.Int.{pos}

abbrev no_posts : PostStore
no_posts = record {
  infos = empty;
  metas = empty;
  reports_or_upvotes = empty;
  comments = empty;
  views = empty;
  donations = empty;
  post_param = none;
}

no_posts-IsSourced : IsSourced no_posts
unfolding IsSourced
no_posts-IsSourced permlink info e = absurd (nothing_there e)

abbrev post : (author post_id source_author source_post_id : String) → PostInfo
post author post_id source_author source_post_id = record {
  post_id = post_id;
  title = "title";
  content = "content";
  author = author;
  parent_author = "";
  parent_post_id = "";
  source_author = source_author;
  source_post_id = source_post_id;
  links = [];
}

abbrev operations : List PostOperation
operations =
    creates (pos 1) (post "bob" "one" "" "") (pos 0, pos 1)
    ∷ creates (pos 2) (post "eve" "two" "bob" "one") (pos 0, pos 1)
    ∷ creates (pos 3) (post "dan" "three" "eve" "two") (pos 0, pos 1)
    ∷ creates (pos 4) (post "dan" "four" "eve" "nowhere") (pos 0, pos 1)
    ∷ donates (pos 5) "bob#one" "eve" (coins 7)
    ∷ deletes (pos 6) "eve#two"
    ∷ []

perform_all-IsSourced_example : IsSourced (perform_all operations no_posts)
perform_all-IsSourced_example = perform_all-IsSourced operations no_posts no_posts-IsSourced

-- The third post names the first, which the second reposts.
names_root :
    (perform_all operations no_posts).infos "dan#three" ≡ some (post "dan" "three" "bob" "one")
unfolding lino.Post.Manager.create_post lino.Post.Manager.delete_post
    lino.Post.Manager.set_root_source_post lino.Post.Manager.get_source_post
    lino.Post.Manager.add_donation insert
names_root = refl
