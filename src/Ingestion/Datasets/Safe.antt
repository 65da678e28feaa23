-- ===== src/Ingestion/Datasets/Safe.antt =====
-- The five contracts and what the engine asks of a contract.
use marketforge.Prelude.{refl, inl, inr, String, All}
use marketforge.Ingestion.Contracts.{Contract}
use marketforge.Ingestion.Contracts.Hashable.{IsSound}
use marketforge.Ingestion.Contracts.Returning.{IsSafe}
use marketforge.Ingestion.Normalizers.{
  Python, text, upper_text, finite_float, integer, iso_date, utc_datetime, url,
}
use marketforge.Ingestion.Normalizers.Problems.{
  IsPython, text-RaisesProblems, upper_text-RaisesProblems, finite_float-RaisesProblems,
  integer-RaisesProblems, iso_date-RaisesProblems, utc_datetime-RaisesProblems, url-RaisesProblems,
}
use marketforge.Ingestion.Normalizers.Shapes.{
  text_hashable, upper_text_hashable, finite_float_hashable, integer_hashable, iso_date_hashable,
  utc_datetime_hashable, url_hashable,
}
use marketforge.Ingestion.Datasets.{
  prices_contract, fundamentals_contract, earnings_contract, macro_contract, news_contract,
  contracts,
}
use marketforge.Ingestion.Datasets.Orders.{
  price_ranges-Gives, period_order-Gives, release_order-Gives,
}

module _ (p : Python) (h : IsPython p) where
  a_text : IsSound (text p)
  a_text = record {
    problems = λ v. (text-RaisesProblems p h v).problem;
    hashable = λ v cell e. text_hashable p v cell e;
  }

  an_upper : IsSound (upper_text p)
  an_upper = record {
    problems = λ v. (upper_text-RaisesProblems p h v).problem;
    hashable = λ v cell e. upper_text_hashable p v cell e;
  }

  a_float : IsSound (finite_float p)
  a_float = record {
    problems = λ v. (finite_float-RaisesProblems p h v).problem;
    hashable = λ v cell e. finite_float_hashable p v cell e;
  }

  an_integer : IsSound (integer p)
  an_integer = record {
    problems = λ v. (integer-RaisesProblems p h v).problem;
    hashable = λ v cell e. integer_hashable p v cell e;
  }

  a_date : IsSound (iso_date p)
  a_date = record {
    problems = λ v. (iso_date-RaisesProblems p h v).problem;
    hashable = λ v cell e. iso_date_hashable p v cell e;
  }

  a_time : IsSound (utc_datetime p)
  a_time = record {
    problems = λ v. (utc_datetime-RaisesProblems p h v).problem;
    hashable = λ v cell e. utc_datetime_hashable p v cell e;
  }

  a_url : IsSound (url p)
  a_url = record {
    problems = λ v. (url-RaisesProblems p h v).problem;
    hashable = λ v cell e. url_hashable p v cell e;
  }

  prices-IsSafe : IsSafe (prices_contract p)
  prices-IsSafe = record {
    normalizers = (
      an_upper,
      (
        a_date,
        (a_float, (a_float, (a_float, (a_float, (an_integer, (a_text, (a_text, (a_time, tt)))))))),
      ),
    );
    rules = λ input row c. (price_ranges-Gives p input row c, tt);
    key = (inl refl, (inr (inl refl), (inr (inr (inr (inr (inr (inr (inr (inl refl))))))), tt)));
  }

  fundamentals-IsSafe : IsSafe (fundamentals_contract p)
  fundamentals-IsSafe = record {
    normalizers = (
      an_upper,
      (
        a_text,
        (
          a_date,
          (
            a_date,
            (
              an_upper,
              (a_time, (a_float, (an_upper, (an_upper, (a_text, (a_text, (a_time, tt))))))),
            ),
          ),
        ),
      ),
    );
    rules = λ input row c. (period_order-Gives p input row c, tt);
    key = (
      inr (inr (inr (inr (inr (inr (inr (inr (inr (inl refl))))))))),
      (inr (inr (inr (inr (inr (inr (inr (inr (inr (inr (inl refl)))))))))), tt),
    );
  }

  earnings-IsSafe : IsSafe (earnings_contract p)
  earnings-IsSafe = record {
    normalizers = (
      an_upper,
      (a_time, (a_date, (an_upper, (a_float, (a_float, (a_text, (a_text, (a_time, tt)))))))),
    );
    rules = λ input row c. tt;
    key = (
      inr (inr (inr (inr (inr (inr (inl refl)))))),
      (inr (inr (inr (inr (inr (inr (inr (inl refl))))))), tt),
    );
  }

  macro-IsSafe : IsSafe (macro_contract p)
  macro-IsSafe = record {
    normalizers = (
      an_upper,
      (a_date, (a_time, (a_float, (an_upper, (an_upper, (a_text, (a_text, (a_time, tt)))))))),
    );
    rules = λ input row c. (release_order-Gives p input row c, tt);
    key = (
      inr (inr (inr (inr (inr (inr (inl refl)))))),
      (inr (inr (inr (inr (inr (inr (inr (inl refl))))))), tt),
    );
  }

  news-IsSafe : IsSafe (news_contract p)
  news-IsSafe = record {
    normalizers = (a_time, (a_text, (a_url, (a_text, (a_text, (a_text, (a_time, tt)))))));
    rules = λ input row c. tt;
    key = (inr (inr (inr (inr (inl refl)))), (inr (inr (inr (inr (inr (inl refl))))), tt));
  }

  -- When Python's parsers raise TypeError, ValueError and OverflowError only, each of the five
  -- contracts is what the engine relies on: its normalisers raise such errors only and return hashable values, its rules raise
  -- nothing on a row of the contract, and its batch key is made of its columns.
  pub contracts-IsSafe : All (λ (c : String × Contract). IsSafe c.1) (contracts p)
  contracts-IsSafe =
      (prices-IsSafe, (fundamentals-IsSafe, (earnings-IsSafe, (macro-IsSafe, (news-IsSafe, tt)))))
